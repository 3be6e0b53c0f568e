-- ===== src/Common/Int.antt =====
-- Signed integers over the native numbers: Go's `int` and `int64` values, before any wrap-around.
use Prim.Native.Nat.{◌%◌, ℕ, suc, ◌+◌, ◌-◌, ◌^◌, ◌≤◌}
use mathlib.Core.Path.{◌≡◌, refl}
use mathlib.Core.Bool.{Bool}
use directory_exporter.Common.Tests.{if◌then◌else◌, ltb, leb}

-- `negsuc n` is -(n + 1).
pub data ℤ : Type 0 where
  pos : ℕ → ℤ
  negsuc : ℕ → ℤ

abbrev pub pos_part : ℤ → ℕ
pos_part (pos n) = n
pos_part (negsuc n) = 0

abbrev pub neg_part : ℤ → ℕ
neg_part (pos n) = 0
neg_part (negsuc n) = suc n

infix 50 ◌≤ℤ◌
abbrev pub ◌≤ℤ◌ : ℤ → ℤ → Type 0
a ≤ℤ b = pos_part a + neg_part b ≤ pos_part b + neg_part a

abbrev pub ltb_ℤ : ℤ → ℤ → Bool
ltb_ℤ a b = ltb (pos_part a + neg_part b) (pos_part b + neg_part a)

abbrev pub leb_ℤ : ℤ → ℤ → Bool
leb_ℤ a b = leb (pos_part a + neg_part b) (pos_part b + neg_part a)

abbrev pub max_int64 : ℤ
max_int64 = pos (2 ^ 63 - 1)

abbrev pub min_int64 : ℤ
min_int64 = negsuc (2 ^ 63 - 1)

-- The values that an `int64` holds.
pub record IsInt64 (a : ℤ) : Type 0 where
  pub above : min_int64 ≤ℤ a
  pub below : a ≤ℤ max_int64

-- `a - b` on `int64` values, with its wrap-around.
unfoldable pub sub_int64 : ℤ → ℤ → ℤ
sub_int64 a b =
    let up = pos_part a + neg_part b in
    let down = pos_part b + neg_part a in
    let r = (up + (2 ^ 64 - down % 2 ^ 64)) % 2 ^ 64 in
    if ltb r (2 ^ 63) then pos r else negsuc (2 ^ 64 - 1 - r)

sub_samples :
    (sub_int64 (pos 3) (pos 5) ≡ negsuc 1)
    × (sub_int64 (pos 9) (negsuc 0) ≡ pos 10)
    × (sub_int64 min_int64 (pos 1) ≡ max_int64)
unfolding sub_int64
sub_samples = (refl, refl, refl)
