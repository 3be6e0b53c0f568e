-- ===== src/Common/Maps.antt =====
-- Go maps with string keys as lists of pairs, and maps that are filled in an unknown order.
use directory_exporter.Common.Lists.{All}
use mathlib.Core.Path.{◌≡◌, refl, sym, ap, ◌∙◌}
use mathlib.Core.Logic.{inl, inr}
use mathlib.Core.Bool.{Bool, false, ◌||◌}
use mathlib.Core.List.{List, [], ◌∷◌, map}
use mathlib.Core.Option.{Option, none, some}
use native.Mathlib.Omega.{arith}
use directory_exporter.Common.Tests.{if◌then◌else◌, Bool-cases}
use directory_exporter.Common.Text.{Bytes, eqb, eqb_iff}

-- Whether a key is in a set of keys.
unfoldable pub member : Bytes → List Bytes → Bool
member k [] = false
member k (j ∷ ks) = eqb k j || member k ks

-- No key stands twice.
abbrev pub Distinct : List Bytes → Type 0
Distinct [] = Unit
Distinct (k ∷ ks) = (member k ks ≡ false) × Distinct ks

module _ {ℓ} {V : Type ℓ} where
  -- `m[k]`, and `m[k] = v`.
  unfoldable pub get : Bytes → List (Bytes × V) → Option V
  get k [] = none
  get k ((j, v) ∷ m) = let rest = get k m in if eqb k j then some v else rest

  unfoldable pub put : Bytes → V → List (Bytes × V) → List (Bytes × V)
  put k v [] = (k, v) ∷ []
  put k v ((j, w) ∷ m) = let rest = put k v m in if eqb k j then (k, v) ∷ m else (j, w) ∷ rest

  pub get-put :
      (k j : Bytes) (v : V) (m : List (Bytes × V))
      → get k (put j v m) ≡ (if eqb k j then some v else get k m)
  unfolding get put
  get-put k j v [] = refl
  get-put k j v ((i, w) ∷ m) =
      ground (arith, eqb_iff k j, eqb_iff j i, eqb_iff k i, get-put k j v m)

  abbrev pub keys : List (Bytes × V) → List Bytes
  keys = map (λ w. w.0)

  -- A map after a list of writes, each under the lock.
  unfoldable pub write_all : List (Bytes × V) → List (Bytes × V) → List (Bytes × V)
  write_all [] m = m
  write_all ((k, v) ∷ ws) m = write_all ws (put k v m)

  -- Where no key is written twice, a map holds what was written.
  pub get-write_all :
      (k : Bytes) (ws m : List (Bytes × V))
      → Distinct (keys ws)
      → get k (write_all ws m) ≡ (if member k (keys ws) then get k ws else get k m)
  unfolding get write_all member
  get-write_all k [] m h = refl
  get-write_all k ((j, v) ∷ ws) m (new, h) =
      ground (arith, get-write_all k ws (put j v m) h, get-put k j v m, eqb_iff k j)

eqb_comm : (k j : Bytes) → eqb k j ≡ eqb j k
eqb_comm k j = ground (arith, eqb_iff k j, eqb_iff j k)

-- The same items in another order, by steps that exchange neighbours.
pub data Reordered {ℓ} (A : Type ℓ) : List A → List A → Type ℓ where
  same : {xs : List A} → Reordered A xs xs
  keep : {xs ys : List A} (x : A) → Reordered A xs ys → Reordered A (x ∷ xs) (x ∷ ys)
  swap : {xs : List A} (x y : A) → Reordered A (x ∷ y ∷ xs) (y ∷ x ∷ xs)
  then_also : {xs ys zs : List A} → Reordered A xs ys → Reordered A ys zs → Reordered A xs zs

module _ {ℓ} {A : Type ℓ} (key : A → Bytes) where
  pub member-Reordered :
      (k : Bytes) {xs ys : List A}
      → Reordered A xs ys
      → member k (map key xs) ≡ member k (map key ys)
  unfolding member
  member-Reordered k same = refl
  member-Reordered k (keep x r) = ap (λ b. eqb k (key x) || b) (member-Reordered k r)
  member-Reordered k (swap x y) = ground arith
  member-Reordered k (then_also r s) = member-Reordered k r ∙ member-Reordered k s

  pub Distinct-Reordered :
      {xs ys : List A} → Reordered A xs ys → Distinct (map key xs) → Distinct (map key ys)
  unfolding member
  Distinct-Reordered same h = h
  Distinct-Reordered (keep x r) (new, h) =
      (sym (member-Reordered (key x) r) ∙ new, Distinct-Reordered r h)
  Distinct-Reordered (swap x y) (new, (newer, h)) =
      (ground (arith, eqb_comm (key x) (key y)), (ground arith, h))
  Distinct-Reordered (then_also r s) h = Distinct-Reordered s (Distinct-Reordered r h)

module _ {ℓ} {V : Type ℓ} where
  pub get-Reordered :
      (k : Bytes) {ws vs : List (Bytes × V)}
      → Reordered (Bytes × V) ws vs
      → Distinct (keys ws)
      → get k ws ≡ get k vs
  unfolding get member
  get-Reordered k same h = refl
  get-Reordered k (keep x r) h = ground (arith, get-Reordered k r h.1)
  get-Reordered k (swap x y) h = ground (arith, eqb_iff k x.0, eqb_iff k y.0, eqb_iff x.0 y.0)
  get-Reordered k (then_also r s) h =
      get-Reordered k r h ∙ get-Reordered k s (Distinct-Reordered (λ w. w.0) r h)

  -- If no key is written twice, the writes may come in any order: each key holds the same in the end.
  pub write_all-Reordered :
      (k : Bytes) {ws vs : List (Bytes × V)}
      → Reordered (Bytes × V) ws vs
      → Distinct (keys ws)
      → get k (write_all ws []) ≡ get k (write_all vs [])
  write_all-Reordered k {ws} {vs} r h = rw (
    get-write_all k ws [] h,
    get-write_all k vs [] (Distinct-Reordered (λ w. w.0) r h),
    member-Reordered (λ w. w.0) k r,
    get-Reordered k r h,
  )

module _ {ℓ κ} {A : Type ℓ} (R : A → Type κ) where
  -- The values of a map are those that were written.
  put-All :
      (k : Bytes) (v : A) (m : List (Bytes × A))
      → R v
      → All R (map (λ w. w.1) m)
      → All R (map (λ w. w.1) (put k v m))
  unfolding put
  put-All k v [] r rs = (r, tt)
  put-All k v ((j, w) ∷ m) r (s, rs) = elim (Bool-cases (eqb k j)) [
    | inl found ↦ rw found (r, rs)
    | inr other ↦ rw other (s, put-All k v m r rs)
  ]

  pub write_all-All :
      (ws m : List (Bytes × A))
      → All R (map (λ w. w.1) ws)
      → All R (map (λ w. w.1) m)
      → All R (map (λ w. w.1) (write_all ws m))
  unfolding write_all
  write_all-All [] m rs ms = ms
  write_all-All ((k, v) ∷ ws) m (r, rs) ms = write_all-All ws (put k v m) rs (put-All k v m r ms)
