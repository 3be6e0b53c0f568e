-- ===== src/Go/Find.antt =====
-- package strings: where `Index` finds a text, and that `Contains` does.
use directory_exporter.Common.{
  true, false, [], ◌∷◌, ◌++◌, Bytes, ◌≡◌, refl, sym, ◌∙◌, All, inl, inr, Bool-cases, Option-cases,
  ℕ, arith, some, none, ◌==◌,
}
use directory_exporter.Go.Strings.{after_prefix, has_prefix, from_index, contains}

pub after_prefix-append : (p s : Bytes) → after_prefix (p ++ s) p ≡ some s
unfolding after_prefix
after_prefix-append [] s = ground arith
after_prefix-append (c ∷ p) s = ground (arith, after_prefix-append p s)

pub after_prefix-some : (s p r : Bytes) → after_prefix s p ≡ some r → s ≡ p ++ r
unfolding after_prefix
after_prefix-some s [] r h = ground arith
after_prefix-some [] (d ∷ p) r h = absurd (ground arith)
after_prefix-some (c ∷ s) (d ∷ p) r h = elim (Bool-cases (c == d)) [
  | inl e ↦
      let rest = after_prefix-some s p r (ground arith) in let same : c ≡ d = ground arith in cc
  | inr e ↦ absurd (ground arith)
]

-- A text without the byte `d` that begins in front of a `d` ends in front of it.
after_prefix-inside :
    (d : ℕ) (m s t r : Bytes)
    → All (λ c. (d == c) ≡ false) m
    → after_prefix (s ++ (d ∷ t)) m ≡ some r
    → (q : Bytes) × (after_prefix s m ≡ some q)
unfolding after_prefix
after_prefix-inside d [] s t r free h = (s, ground arith)
after_prefix-inside d (x ∷ m) [] t r (here, free) h = absurd (ground arith)
after_prefix-inside d (x ∷ m) (c ∷ s) t r (here, free) h = elim (Bool-cases (c == x)) [
  | inl e ↦ let (q, found) = after_prefix-inside d m s t r free (ground arith) in (q, ground arith)
  | inr e ↦ absurd (ground arith)
]

has_prefix-inside :
    (d c : ℕ) (m s t : Bytes)
    → All (λ x. (d == x) ≡ false) m
    → has_prefix (c ∷ (s ++ (d ∷ t))) (d ∷ m) ≡ true
    → has_prefix (c ∷ s) (d ∷ m) ≡ true
unfolding has_prefix after_prefix
has_prefix-inside d c m s t free h = elim (Bool-cases (c == d)) [
  | inr e ↦ absurd (ground arith)
  | inl e ↦ elim (Option-cases (after_prefix (s ++ (d ∷ t)) m)) [
    | inl p ↦ absurd (ground arith)
    | inr (r, p) ↦ let (q, found) = after_prefix-inside d m s t r free p in ground arith
  ]
]

pub has_prefix-append : (p s : Bytes) → has_prefix (p ++ s) p ≡ true
unfolding has_prefix
has_prefix-append p s = rw (after_prefix-append p s, has_prefix) refl

from_index_here : (s p : Bytes) → has_prefix s p ≡ true → from_index s p ≡ some s
unfolding from_index
from_index_here [] p h = rw h refl
from_index_here (c ∷ s) p h = rw h refl

from_index_later :
    (c : ℕ) (s p : Bytes) → has_prefix (c ∷ s) p ≡ false → from_index (c ∷ s) p ≡ from_index s p
unfolding from_index
from_index_later c s p h = rw h refl

-- A text whose first byte stands in it only there is found where it is written, if it is not found in
-- the part in front.
pub from_index-append :
    (d : ℕ) (m s t : Bytes)
    → All (λ c. (d == c) ≡ false) m
    → from_index s (d ∷ m) ≡ none
    → from_index (s ++ (d ∷ (m ++ t))) (d ∷ m) ≡ some (d ∷ (m ++ t))
from_index-append d m [] t free h =
    from_index_here (d ∷ (m ++ t)) (d ∷ m) (has_prefix-append (d ∷ m) t)
from_index-append d m (c ∷ s) t free h = elim (Bool-cases (has_prefix (c ∷ s) (d ∷ m))) [
  | inl e ↦ absurd (cc (h, from_index_here (c ∷ s) (d ∷ m) e))
  | inr e ↦ elim (Bool-cases (has_prefix (c ∷ (s ++ (d ∷ (m ++ t)))) (d ∷ m))) [
    | inl f ↦ absurd (cc (e, has_prefix-inside d c m s (m ++ t) free f))
    | inr f ↦
        from_index_later c (s ++ (d ∷ (m ++ t))) (d ∷ m) f
        ∙ from_index-append d m s t free (sym (from_index_later c s (d ∷ m) e) ∙ h)
  ]
]

-- A byte that is not in a text is not found.
pub from_index-absent :
    (d : ℕ) (s : Bytes) → All (λ c. (c == d) ≡ false) s → from_index s (d ∷ []) ≡ none
unfolding from_index has_prefix after_prefix
from_index-absent d [] free = refl
from_index-absent d (c ∷ s) (here, free) =
    let begins : has_prefix (c ∷ s) (d ∷ []) ≡ false = ground arith in
    from_index_later c s (d ∷ []) begins ∙ from_index-absent d s free

from_index-inside : (a p b : Bytes) → (r : Bytes) × (from_index (a ++ (p ++ b)) p ≡ some r)
from_index-inside [] p b = (p ++ b, from_index_here (p ++ b) p (has_prefix-append p b))
from_index-inside (c ∷ a) p b = elim (Bool-cases (has_prefix (c ∷ (a ++ (p ++ b))) p)) [
  | inl e ↦ (c ∷ (a ++ (p ++ b)), from_index_here (c ∷ (a ++ (p ++ b))) p e)
  | inr e ↦
      let (r, found) = from_index-inside a p b in
      (r, from_index_later c (a ++ (p ++ b)) p e ∙ found)
]

pub contains-append : (a p b : Bytes) → contains (a ++ (p ++ b)) p ≡ true
unfolding contains
contains-append a p b = let (r, found) = from_index-inside a p b in rw (found, contains) refl
