-- ===== src/Scanner/Spec.antt =====
-- What a scan of a directory is to find: the files of the reads, their times, the extremes of these.
use mathlib.Core.Path.{subst₂}
use directory_exporter.Common.{
  ℕ, suc, ℤ, pos, ltb_ℤ, ltb, ◌≤ℤ◌, IsInt64, min_int64, max_int64, true, List, [], ◌∷◌, ◌++◌,
  Option, Bytes, if◌then◌else◌, length, select, All, ◌≡◌, ◌⊎◌, arith, inl, sym, refl,
}
use directory_exporter.Go.Os.{FileSystem, DirEntry, Read}
use directory_exporter.Scanner.{counted}

-- The entries that the reads give, up to the first read that fails.
abbrev pub stream : List Read → List DirEntry
stream [] = []
stream (r ∷ rs) = r.entries ++ (if r.failed then [] else stream rs)

-- The files among the entries, each with its time if that can be read.
abbrev pub files : FileSystem → Bytes → List DirEntry → List (Option ℤ)
files fs path = select (counted fs path)

abbrev pub times : List (Option ℤ) → List ℤ
times = select (λ t. t)

abbrev pub Among : ℤ → List ℤ → Type 0
Among t [] = ⊥
Among t (u ∷ ts) = (t ≡ u) ⊎ Among t ts

-- The oldest and the newest of a list of times; both are 0 where there is none.
abbrev pub Extremes : List ℤ → ℤ → ℤ → Type 0
Extremes [] o n = (o ≡ pos 0) × (n ≡ pos 0)
Extremes (t ∷ ts) o n =
    Among o (t ∷ ts) × All (λ u. o ≤ℤ u) (t ∷ ts) × Among n (t ∷ ts) × All (λ u. u ≤ℤ n) (t ∷ ts)

-- The running minimum and maximum.
abbrev pub lower : ℤ → List ℤ → ℤ
lower o [] = o
lower o (t ∷ ts) = lower (if ltb_ℤ t o then t else o) ts

abbrev pub raise : ℤ → List ℤ → ℤ
raise n [] = n
raise n (t ∷ ts) = raise (if ltb_ℤ n t then t else n) ts

lower-Among : (o : ℤ) (ts : List ℤ) → (lower o ts ≡ o) ⊎ Among (lower o ts) ts
lower-Among o [] = inl refl
lower-Among o (t ∷ ts) = ground (arith, lower-Among (if ltb_ℤ t o then t else o) ts)

raise-Among : (n : ℤ) (ts : List ℤ) → (raise n ts ≡ n) ⊎ Among (raise n ts) ts
raise-Among n [] = inl refl
raise-Among n (t ∷ ts) = ground (arith, raise-Among (if ltb_ℤ n t then t else n) ts)

lower_le : (o : ℤ) (ts : List ℤ) → (lower o ts ≤ℤ o) × All (λ u. lower o ts ≤ℤ u) ts
lower_le o [] = ground arith
lower_le o (t ∷ ts) = ground (arith, lower_le (if ltb_ℤ t o then t else o) ts)

raise_le : (n : ℤ) (ts : List ℤ) → (n ≤ℤ raise n ts) × All (λ u. u ≤ℤ raise n ts) ts
raise_le n [] = ground arith
raise_le n (t ∷ ts) = ground (arith, raise_le (if ltb_ℤ n t then t else n) ts)

-- The first time replaces the start value, or is equal to it.
first_low : (t : ℤ) → IsInt64 t → (if ltb_ℤ t max_int64 then t else max_int64) ≡ t
first_low t h = ground arith

first_high : (t : ℤ) → IsInt64 t → (if ltb_ℤ min_int64 t then t else min_int64) ≡ t
first_high t h = ground arith

ltb-suc : (n : ℕ) → ltb 0 (suc n) ≡ true
ltb-suc n = ground arith

Extremes-of :
    (t : ℤ) (ts : List ℤ) (o n : ℤ) → o ≡ lower t ts → n ≡ raise t ts → Extremes (t ∷ ts) o n
Extremes-of t ts o n p q =
    let (low, lows) = lower_le t ts in
    let (high, highs) = raise_le t ts in
    subst₂ (λ a b. Extremes (t ∷ ts) a b) (sym p) (sym q)
      (lower-Among t ts, (low, lows), raise-Among t ts, (high, highs))

-- From the start values of the scan the running extremes are those of the times.
pub Extremes-lower :
    (ts : List ℤ)
    → All IsInt64 ts
    → Extremes ts
        (if ltb 0 (length ts) then lower max_int64 ts else pos 0)
        (if ltb 0 (length ts) then raise min_int64 ts else pos 0)
Extremes-lower [] h = (refl, refl)
Extremes-lower (t ∷ ts) (h, hs) =
    Extremes-of t ts _ _ (rw (ltb-suc (length ts), first_low t h))
      (rw (ltb-suc (length ts), first_high t h))
