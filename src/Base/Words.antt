-- ===== src/Base/Words.antt =====
-- C integers as bit patterns, and their bytes in memory order (little-endian).
use Prim.Native.Nat.{ℕ, zero, suc, ◌+◌, ◌-◌, ◌*◌, ◌/◌, ◌%◌, ◌^◌, ◌<◌}
use mathlib.Core.Path.{◌≡◌, refl, ap}
use mathlib.Core.Bool.{Bool}
use mathlib.Core.List.{List, [], ◌∷◌}
use native.Mathlib.Omega.{arith}
use soii_ipc.Base.Tests.{ltb}
use soii_ipc.Base.Lists.{length}

-- An `int` is its 32-bit pattern; this one is -1.
abbrev pub int_minus_one : ℕ
int_minus_one = 2 ^ 32 - 1

-- `a < b` between two `int`s, read from their patterns.
abbrev pub slt : ℕ → ℕ → Bool
slt a b = ltb ((a + 2 ^ 31) % 2 ^ 32) ((b + 2 ^ 31) % 2 ^ 32)

-- `x++` and `x--` on an `int`.
abbrev pub increment : ℕ → ℕ
increment x = (x + 1) % 2 ^ 32

abbrev pub decrement : ℕ → ℕ
decrement x = (x + (2 ^ 32 - 1)) % 2 ^ 32

-- The lowest `n` bytes of a value, lowest first, and the value of such bytes.
unfoldable pub to_bytes : ℕ → ℕ → List ℕ
to_bytes zero w = []
to_bytes (suc n) w = (w % 256) ∷ to_bytes n (w / 256)

unfoldable pub of_bytes : List ℕ → ℕ
of_bytes [] = 0
of_bytes (b ∷ bs) = b + 256 * of_bytes bs

pub of_bytes-to_bytes : (n w : ℕ) → w < 256 ^ n → of_bytes (to_bytes n w) ≡ w
unfolding to_bytes of_bytes
of_bytes-to_bytes zero w h = omega arith
of_bytes-to_bytes (suc n) w h = omega (arith, of_bytes-to_bytes n (w / 256) (omega arith))

pub length-to_bytes : (n w : ℕ) → length (to_bytes n w) ≡ n
unfolding to_bytes
length-to_bytes zero w = refl
length-to_bytes (suc n) w = ap suc (length-to_bytes n (w / 256))
