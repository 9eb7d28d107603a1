-- ===== src/Protocol/FileDigest.antt =====
-- `get_file_MD5`: the digest of a file, read in pieces.
use soii_ipc.Base.{ℕ, ◌≡◌, sym, ap, ◌∙◌, refl, List, [], ◌∷◌, ◌++◌, Option, none, some, map}
use soii_ipc.Protocol.{Md5, get_file_md5, digest_loop}

-- The bytes of the pieces in turn.
unfoldable pub joined : List (List ℕ) → List ℕ
joined [] = []
joined (c ∷ cs) = c ++ joined cs

-- No piece is empty.
abbrev pub NonEmpty : List (List ℕ) → Type 0
NonEmpty [] = Unit {0}
NonEmpty ([] ∷ cs) = ⊥
NonEmpty ((b ∷ bs) ∷ cs) = NonEmpty cs

module _ ⦃md5 : Md5⦄ where
  digest_loop-feed :
      (c : md5.Context) (cs : List (List ℕ)) (rest : List (Option (List ℕ)))
      → NonEmpty cs
      → digest_loop c (map some cs ++ some [] ∷ rest) ≡ some (md5.final (md5.feed c (joined cs)))
  unfolding digest_loop joined
  digest_loop-feed c [] rest ne = ap (λ d. some (md5.final d)) (sym (md5.feed-nil c))
  digest_loop-feed c ([] ∷ cs) rest ne = absurd ne
  digest_loop-feed c ((b ∷ bs) ∷ cs) rest ne =
      digest_loop-feed (md5.feed c (b ∷ bs)) cs rest ne
      ∙ ap (λ d. some (md5.final d)) (md5.feed-append c (b ∷ bs) (joined cs))

  -- A file that is read without an error, in any pieces up to the end of the file, has the digest
  -- of its whole content.
  pub get_file_md5-digest :
      (cs : List (List ℕ)) (rest : List (Option (List ℕ)))
      → NonEmpty cs
      → get_file_md5 (map some cs ++ some [] ∷ rest) ≡ some (md5.digest (joined cs))
  unfolding get_file_md5
  get_file_md5-digest cs rest ne =
      digest_loop-feed md5.init cs rest ne ∙ ap some (md5.final-feed (joined cs))

  digest_loop-error :
      (c : md5.Context) (cs : List (List ℕ)) (rest : List (Option (List ℕ)))
      → NonEmpty cs
      → digest_loop c (map some cs ++ none ∷ rest) ≡ none
  unfolding digest_loop
  digest_loop-error c [] rest ne = refl
  digest_loop-error c ([] ∷ cs) rest ne = absurd ne
  digest_loop-error c ((b ∷ bs) ∷ cs) rest ne = digest_loop-error (md5.feed c (b ∷ bs)) cs rest ne

  -- A read that fails before the end of the file makes the whole function fail.
  pub get_file_md5-error :
      (cs : List (List ℕ)) (rest : List (Option (List ℕ)))
      → NonEmpty cs
      → get_file_md5 (map some cs ++ none ∷ rest) ≡ none
  unfolding get_file_md5
  get_file_md5-error cs rest ne = digest_loop-error md5.init cs rest ne
