-- ===== src/Common/Lists.antt =====
-- Lists measured by native numbers, predicates on lists, and selection by a partial function.
use Prim.Native.Nat.{ℕ, suc, ◌+◌, ◌≤◌}
use mathlib.Core.Path.{◌≡◌, refl, subst, sym}
use mathlib.Core.Bool.{Bool, true, false}
use mathlib.Core.List.{Memᴰ, List, [], ◌∷◌, ◌++◌}
use mathlib.Core.Option.{Option, none, some}
use native.Mathlib.Omega.{arith}

module _ {ℓ} {A : Type ℓ} where
  abbrev pub length : List A → ℕ
  length [] = 0
  length (x ∷ xs) = suc (length xs)

  abbrev pub is_empty : List A → Bool
  is_empty [] = true
  is_empty (_ ∷ _) = false

  pub length-append : (xs ys : List A) → length (xs ++ ys) ≡ length xs + length ys
  length-append [] ys = omega arith
  length-append (x ∷ xs) ys = omega (arith, length-append xs ys)

module _ {ℓ κ} {A : Type ℓ} (P : A → Type κ) where
  abbrev pub All : List A → Type κ
  All [] = Unit
  All (x ∷ xs) = P x × All xs

-- The values that a partial function gives on a list, in order.
module _ {ℓ κ} {A : Type ℓ} {B : Type κ} (f : A → Option B) where
  abbrev pub select : List A → List B
  select [] = []
  select (x ∷ xs) = elim (f x) [ none ↦ select xs | some y ↦ y ∷ select xs ]

  pub select-none : (x : A) (xs : List A) → f x ≡ none → select (x ∷ xs) ≡ select xs
  select-none x xs h = rw (h, select) refl

  pub select-some : (x : A) (xs : List A) (y : B) → f x ≡ some y → select (x ∷ xs) ≡ y ∷ select xs
  select-some x xs y h = rw (h, select) refl

  pub length-select : (xs : List A) → length (select xs) ≤ length xs
  length-select [] = omega arith
  length-select (x ∷ xs) = ground (arith, length-select xs)

pub All-append {ℓ κ} :
    {A : Type ℓ} (P : A → Type κ) (xs ys : List A) → All P xs → All P ys → All P (xs ++ ys)
All-append P [] ys _ hy = hy
All-append P (x ∷ xs) ys (px, hx) hy = (px, All-append P xs ys hx hy)

-- What holds of all members holds of each.
pub All-member {ℓ κ} :
    {A : Type ℓ} (P : A → Type κ) {x : A} (xs : List A) → All P xs → Memᴰ x xs → P x
All-member P [] h m = elim m [ ]
All-member P (y ∷ xs) (h, hs) (Memᴰ.head e) = subst P (sym e) h
All-member P (y ∷ xs) (h, hs) (Memᴰ.tail m) = All-member P xs hs m

-- A weaker predicate, and that of being a member.
pub All-weaken {ℓ κ μ} :
    {A : Type ℓ} (P : A → Type κ) (R : A → Type μ) (xs : List A)
    → ((x : A) → P x → R x)
    → All P xs
    → All R xs
All-weaken P R [] f h = tt
All-weaken P R (x ∷ xs) f (p, h) = (f x p, All-weaken P R xs f h)

pub All-self {ℓ} : {A : Type ℓ} (xs : List A) → All (λ x. Memᴰ x xs) xs
All-self [] = tt
All-self (x ∷ xs) = (Memᴰ.head refl, All-weaken _ _ xs (λ y m. Memᴰ.tail m) (All-self xs))
