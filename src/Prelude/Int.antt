-- ===== src/Prelude/Int.antt =====
-- Go's signed 64-bit integers: an integer, and the wrap-around into 64 bits written out.
use Prim.Native.Nat.{ℕ, ◌+◌, ◌-◌, ◌*◌, ◌%◌, ◌^◌, ◌<◌}
use mathlib.Core.Path.{ap, ◌≡◌}
use mathlib.Core.Bool.{Bool, true}
use mathlib.Core.Logic.{◌↔◌}
use native.Mathlib.Omega.{arith}
use go_proxmox.Prelude.Tests.{ltb, leb, ◌==◌, if◌then◌else◌}

-- `negsuc n` is -(n + 1).
pub data ℤ : Type 0 where
  pos : ℕ → ℤ
  negsuc : ℕ → ℤ

-- `a < 0`, `a <= 0`, `a < b`.
abbrev pub is_neg : ℤ → Bool
is_neg (pos _) = Bool.false
is_neg (negsuc _) = Bool.true

abbrev pub ltb_ℤ : ℤ → ℤ → Bool
ltb_ℤ (pos a) (pos b) = ltb a b
ltb_ℤ (pos _) (negsuc _) = Bool.false
ltb_ℤ (negsuc _) (pos _) = Bool.true
ltb_ℤ (negsuc a) (negsuc b) = ltb b a

abbrev pub two63 : ℕ
two63 = 2 ^ 63

abbrev pub two64 : ℕ
two64 = 2 ^ 64

-- The int64 with the given low 64 bits.
abbrev pub of_bits : ℕ → ℤ
of_bits n = if ltb n two63 then pos n else negsuc (two64 - 1 - n)

-- The int64 that a number overflows to.
unfoldable pub wrap64 : ℤ → ℤ
wrap64 (pos n) = of_bits (n % two64)
wrap64 (negsuc n) = of_bits (two64 - 1 - n % two64)

-- `a * k` for a factor that is not negative, before the wrap.
abbrev pub times : ℤ → ℕ → ℤ
times (pos n) k = pos (n * k)
times (negsuc n) k = if ltb 0 k then negsuc ((n + 1) * k - 1) else pos 0

pub wrap64_pos : (n : ℕ) → n < two63 → wrap64 (pos n) ≡ pos n
unfolding wrap64
wrap64_pos n h = ground arith

-- How long a timer of a duration runs: one that is not above zero fires at once.
abbrev pub running_time : ℤ → ℕ
running_time (pos n) = n
running_time (negsuc _) = 0

-- The time of `time.Duration(n) * time.Second`, whose product wraps.
unfoldable pub seconds_of : ℕ → ℕ
unfolding wrap64
seconds_of n = running_time (wrap64 (pos (n * 10 ^ 9)))

pub seconds_of_small : (n : ℕ) → n * 10 ^ 9 < two63 → seconds_of n ≡ n * 10 ^ 9
unfolding seconds_of
seconds_of_small n h = ap running_time (wrap64_pos (n * 10 ^ 9) h)

-- `a - b`, before the wrap.
abbrev pub sub_ℤ : ℤ → ℤ → ℤ
sub_ℤ (pos a) (pos b) = if leb b a then pos (a - b) else negsuc (b - a - 1)
sub_ℤ (pos a) (negsuc b) = pos (a + b + 1)
sub_ℤ (negsuc a) (pos b) = negsuc (a + b)
sub_ℤ (negsuc a) (negsuc b) = if leb a b then pos (b - a) else negsuc (a - b - 1)

abbrev pub eq_ℤ : ℤ → ℤ → Bool
eq_ℤ (pos a) (pos b) = a == b
eq_ℤ (negsuc a) (negsuc b) = a == b
eq_ℤ _ _ = Bool.false

pub eq_ℤ_iff : (a b : ℤ) → (eq_ℤ a b ≡ true) ↔ (a ≡ b)
eq_ℤ_iff (pos a) (pos b) = ground arith
eq_ℤ_iff (pos a) (negsuc b) = ground arith
eq_ℤ_iff (negsuc a) (pos b) = ground arith
eq_ℤ_iff (negsuc a) (negsuc b) = ground arith
