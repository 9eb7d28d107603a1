-- ===== src/Server/Logging.antt =====
-- server/src/srv_util.c: get_datetime and log_event, on C strings without their terminators.
use soii_ipc.Base.{
  ◌∙◌, ap, take_of_length_le, length-take_le, ◌==◌, negsuc, ℕ, ◌+◌, ◌-◌, ◌≤◌, ◌<◌, ◌≡◌, true, List,
  ◌++◌, Option, none, some, arith, ltb, if◌then◌else◌, length, take, length-append, ℤ, pos,
  minus_one,
}

-- What the code relies on of `strftime` with "%D %H:%M:%S ": two digits for each of the six numbers,
-- with five characters between them and a space.
pub record Strftime : Type 0 where
  pub stamp : ℕ → List ℕ
  pub length-stamp : (now : ℕ) → length (stamp now) ≡ 18

-- What a buffer holds: a text, or nothing that is defined.
pub data Buffer : Type 0 where
  text : List ℕ → Buffer
  indeterminate : Buffer

-- What `log_event` does: it returns -1, it writes a line and returns 0, or it writes behind the end of
-- its array, or uses one that holds nothing.
pub data LogResult : Type 0 where
  refused : LogResult
  printed : List ℕ → LogResult
  undefined : LogResult

abbrev pub datetime_size : ℕ
datetime_size = 200

abbrev pub event_size : ℕ
event_size = 128

-- `vsnprintf`, on the text that the format makes.
unfoldable pub vsnprintf : ℕ → List ℕ → List ℕ
vsnprintf size s = take (size - 1) s

-- `strncat` to an array of the given size. `none` is a write behind its end.
unfoldable pub strncat : ℕ → List ℕ → List ℕ → ℕ → Option (List ℕ)
strncat size buffer s n =
    let joined = buffer ++ take n s in if ltb (length joined) size then some joined else none

ltb_of_lt : (a b : ℕ) → a < b → ltb a b ≡ true
ltb_of_lt a b h = ground arith

strncat-append :
    (size : ℕ) (buffer s : List ℕ) (n : ℕ)
    → length s ≤ n
    → length buffer + length s < size
    → strncat size buffer s n ≡ some (buffer ++ s)
unfolding strncat
strncat-append size buffer s n short room =
    let fits = ltb_of_lt (length (buffer ++ s)) size (omega (arith, length-append {0} buffer s)) in
    rw (take_of_length_le n s short, fits)

module _ ⦃strftime : Strftime⦄ where
  -- `now` is what `time` returned, `none` for -1. The result and the buffer.
  unfoldable pub get_datetime : ℕ → Option ℕ → ℤ × Buffer
  get_datetime max_len none = (minus_one, indeterminate)
  get_datetime max_len (some now) = (
    pos 0,
    (if ltb (length (strftime.stamp now)) max_len
        then text (strftime.stamp now)
        else indeterminate),
  )

  abbrev pub append_event : List ℕ → Buffer → LogResult
  append_event event indeterminate = undefined
  append_event event (text datetime) =
      elim (strncat datetime_size datetime (vsnprintf event_size event) 200) [
        | none ↦ undefined
        | some line ↦ printed line
      ]

  abbrev pub log_stamped : List ℕ → ℤ × Buffer → LogResult
  log_stamped event (pos n, buffer) = append_event event buffer
  log_stamped event (negsuc n, buffer) = if n == 0 then refused else append_event event buffer

  unfoldable pub log_event : Option ℕ → List ℕ → LogResult
  log_event now event = log_stamped event (get_datetime 50 now)

  get_datetime-stamp :
      (max_len now : ℕ)
      → 18 < max_len
      → get_datetime max_len (some now) ≡ (pos 0, text (strftime.stamp now))
  unfolding get_datetime
  get_datetime-stamp max_len now h =
      rw
        (ltb_of_lt (length (strftime.stamp now)) max_len (omega (arith, strftime.length-stamp now)))

  -- Every event is logged behind its time, cut to 127 bytes, and the array that both are put together
  -- in is large enough, with more than 50 bytes to spare.
  pub log_event-printed :
      (now : ℕ) (event : List ℕ)
      → (log_event (some now) event ≡ printed (strftime.stamp now ++ take 127 event))
        × (length (strftime.stamp now ++ take 127 event) + 50 < datetime_size)
  unfolding log_event vsnprintf
  log_event-printed now event =
      let stamp = strftime.stamp now in
      let long = strftime.length-stamp now in
      let cut = length-take_le {0} 127 event in
      let sum = length-append {0} stamp (take 127 event) in
      (
        ap (log_stamped event) (get_datetime-stamp 50 now (omega arith))
            ∙ ap (λ o. elim o [ none ↦ undefined | some line ↦ printed line ])
                (strncat-append datetime_size stamp (take 127 event) 200 (omega (arith, cut))
                  (omega (arith, cut, long))),
        omega (arith, sum, long, cut),
      )
