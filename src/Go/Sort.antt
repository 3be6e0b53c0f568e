-- ===== src/Go/Sort.antt =====
-- `sort.Strings` and `sort.Slice` by a string key: insertion by Go's order of strings, which is that
-- of their bytes.
use directory_exporter.Common.{
  All, Bool-cases, ◌⊎◌, inl, inr, member, map, Distinct, Distinct-Reordered, Reordered, same, keep,
  swap, then_also, eqb, ltb, Bool, true, false, ◌||◌, ◌&&◌, List, [], ◌∷◌, Bytes, ◌==◌,
  if◌then◌else◌, ◌≡◌, arith, refl, sym, ap, ◌∙◌,
}
use mathlib.Core.List.{Memᴰ}

-- `s < t`
abbrev pub ltb_bytes : Bytes → Bytes → Bool
ltb_bytes [] [] = false
ltb_bytes [] (_ ∷ _) = true
ltb_bytes (_ ∷ _) [] = false
ltb_bytes (a ∷ s) (b ∷ t) = ltb a b || (a == b && ltb_bytes s t)

module _ {ℓ} {A : Type ℓ} (less : A → A → Bool) where
  unfoldable pub insert : A → List A → List A
  insert x [] = x ∷ []
  insert x (y ∷ ys) = let rest = insert x ys in if less y x then y ∷ rest else x ∷ y ∷ ys

  unfoldable pub sort : List A → List A
  unfolding insert
  sort [] = []
  sort (x ∷ xs) = insert x (sort xs)

-- The order of strings is strict and total.
ltb_bytes_irrefl : (s : Bytes) → ltb_bytes s s ≡ false
ltb_bytes_irrefl [] = refl
ltb_bytes_irrefl (a ∷ s) = ground (arith, ltb_bytes_irrefl s)

ltb_bytes_trans :
    (s t u : Bytes) → ltb_bytes s t ≡ true → ltb_bytes t u ≡ true → ltb_bytes s u ≡ true
ltb_bytes_trans [] [] u h k = absurd (ground arith)
ltb_bytes_trans (a ∷ s) [] u h k = absurd (ground arith)
ltb_bytes_trans s (b ∷ t) [] h k = absurd (ground arith)
ltb_bytes_trans [] (b ∷ t) (c ∷ u) h k = refl
ltb_bytes_trans (a ∷ s) (b ∷ t) (c ∷ u) h k = ground (arith, ltb_bytes_trans s t u)

ltb_bytes_total : (s t : Bytes) → eqb s t ≡ false → ltb_bytes s t ≡ false → ltb_bytes t s ≡ true
ltb_bytes_total [] [] h k = absurd (ground arith)
ltb_bytes_total [] (b ∷ t) h k = absurd (ground arith)
ltb_bytes_total (a ∷ s) [] h k = refl
ltb_bytes_total (a ∷ s) (b ∷ t) h k = ground (arith, ltb_bytes_total s t)

module _ {ℓ} {A : Type ℓ} (key : A → Bytes) where
  abbrev pub by_key : A → A → Bool
  by_key x y = ltb_bytes (key x) (key y)

  before : (x y : A) → by_key x y ≡ true → by_key y x ≡ false
  before x y h = ground (arith, ltb_bytes_trans (key x) (key y) (key x), ltb_bytes_irrefl (key x))

  insert-insert :
      (x y : A) (zs : List A)
      → by_key x y ≡ true
      → insert by_key x (insert by_key y zs) ≡ insert by_key y (insert by_key x zs)
  unfolding insert
  insert-insert x y [] h = rw (h, before x y h) refl
  insert-insert x y (z ∷ zs) h =
      ground (arith, before x y h, insert-insert x y zs h, ltb_bytes_trans (key z) (key x) (key y))

  insert-distinct :
      (x y : A) (zs : List A)
      → eqb (key x) (key y) ≡ false
      → insert by_key x (insert by_key y zs) ≡ insert by_key y (insert by_key x zs)
  insert-distinct x y zs h = elim (Bool-cases (by_key x y)) [
    | inl below ↦ insert-insert x y zs below
    | inr above ↦ sym (insert-insert y x zs (ltb_bytes_total (key x) (key y) h above))
  ]

  -- Sorting forgets the order of a list whose keys are distinct.
  pub sort-Reordered :
      {xs ys : List A} → Reordered A xs ys → Distinct (map key xs) → sort by_key xs ≡ sort by_key ys
  unfolding sort member
  sort-Reordered same h = refl
  sort-Reordered (keep x r) h = ap (insert by_key x) (sort-Reordered r h.1)
  sort-Reordered (swap {xs = zs} x y) h = insert-distinct x y (sort by_key zs) (ground arith)
  sort-Reordered (then_also r s) h =
      sort-Reordered r h ∙ sort-Reordered s (Distinct-Reordered key r h)

-- Sorting keeps the members.
module _ {ℓ} {A : Type ℓ} (less : A → A → Bool) where
  insert-Mem : (x y : A) (ys : List A) → (x ≡ y) ⊎ Memᴰ x ys → Memᴰ x (insert less y ys)
  unfolding insert
  insert-Mem x y [] (inl p) = Memᴰ.head p
  insert-Mem x y [] (inr m) = elim m [ ]
  insert-Mem x y (z ∷ ys) o = elim (Bool-cases (less z y)) [
    | inr later ↦ rw later (elim o [ inl p ↦ Memᴰ.head p | inr m ↦ Memᴰ.tail m ])
    | inl sooner ↦ rw sooner (elim o [
      | inl p ↦ Memᴰ.tail (insert-Mem x y ys (inl p))
      | inr m ↦ elim m [
        | Memᴰ.head q ↦ Memᴰ.head q
        | Memᴰ.tail n ↦ Memᴰ.tail (insert-Mem x y ys (inr n))
      ]
    ])
  ]

  pub sort-Mem : (x : A) (xs : List A) → Memᴰ x xs → Memᴰ x (sort less xs)
  unfolding sort
  sort-Mem x [] m = elim m [ ]
  sort-Mem x (y ∷ xs) (Memᴰ.head p) = insert-Mem x y (sort less xs) (inl p)
  sort-Mem x (y ∷ xs) (Memᴰ.tail m) = insert-Mem x y (sort less xs) (inr (sort-Mem x xs m))

-- What holds of all items holds of them sorted.
module _ {ℓ κ} {A : Type ℓ} (R : A → Type κ) where
  insert-All :
      (less : A → A → Bool) (x : A) (xs : List A) → R x → All R xs → All R (insert less x xs)
  unfolding insert
  insert-All less x [] r rs = (r, tt)
  insert-All less x (y ∷ ys) r (s, rs) = elim (Bool-cases (less y x)) [
    | inl later ↦ rw later (s, insert-All less x ys r rs)
    | inr sooner ↦ rw sooner (r, (s, rs))
  ]

  pub sort-All : (less : A → A → Bool) (xs : List A) → All R xs → All R (sort less xs)
  unfolding sort
  sort-All less [] rs = tt
  sort-All less (x ∷ xs) (r, rs) = insert-All less x (sort less xs) r (sort-All less xs rs)
