-- ===== src/Go/Words.antt =====
-- package strings: the words of a text that is written from words, and what `TrimSpace` leaves of them.
use mathlib.Core.List.{
  reverse, reverse-cons, reverse-append, reverse-reverse, append-nil, append_assoc,
}
use directory_exporter.Common.{
  true, false, List, [], ◌∷◌, ◌++◌, Bytes, ◌≡◌, refl, sym, ap, ◌∙◌, All, All-append, inl, inr,
  Bool-cases, ℕ, arith, subst,
}
use directory_exporter.Go.Strings.{fields_from, fields, trim_left, trim, trim_space, is_space}

abbrev pub IsSolid : Bytes → Type 0
IsSolid = All (λ c. is_space c ≡ false)

abbrev pub IsBlank : Bytes → Type 0
IsBlank = All (λ c. is_space c ≡ true)

-- A word ends here.
abbrev pub IsBreak : Bytes → Type 0
IsBreak [] = Unit
IsBreak (c ∷ s) = is_space c ≡ true

fields_from-word :
    (w s : Bytes) (b : ℕ) (acc : Bytes)
    → IsSolid w
    → IsBreak s
    → fields_from (w ++ s) (b ∷ acc) ≡ ((b ∷ acc) ++ w) ∷ fields s
unfolding fields fields_from
fields_from-word [] [] b acc solid ends = ap (λ r. r ∷ []) (sym (append-nil (b ∷ acc)))
fields_from-word [] (c ∷ s) b acc solid ends =
    rw ends (ap (λ r. r ∷ fields s) (sym (append-nil (b ∷ acc))))
fields_from-word (c ∷ w) s b acc (here, solid) ends = rw here (
    fields_from-word w s b (acc ++ c ∷ []) solid ends
    ∙ ap (λ r. r ∷ fields s) (append_assoc (b ∷ acc) (c ∷ []) w))

pub fields-word :
    (c : ℕ) (w s : Bytes) → IsSolid (c ∷ w) → IsBreak s → fields (c ∷ (w ++ s)) ≡ (c ∷ w) ∷ fields s
unfolding fields fields_from
fields-word c w s (here, solid) ends = rw here (fields_from-word w s c [] solid ends)

pub fields-blank : (c : ℕ) (s : Bytes) → is_space c ≡ true → fields (c ∷ s) ≡ fields s
unfolding fields fields_from
fields-blank c s h = rw h refl

fields-trim_left : (s : Bytes) → fields (trim_left is_space s) ≡ fields s
unfolding trim_left
fields-trim_left [] = refl
fields-trim_left (c ∷ s) = elim (Bool-cases (is_space c)) [
  | inl h ↦ rw h (fields-trim_left s ∙ sym (fields-blank c s h))
  | inr h ↦ rw h refl
]

fields_from-behind : (s bl acc : Bytes) → IsBlank bl → fields_from (s ++ bl) acc ≡ fields_from s acc
unfolding fields_from
fields_from-behind [] [] acc h = refl
fields_from-behind [] (c ∷ bl) [] (here, h) = rw here (fields_from-behind [] bl [] h)
fields_from-behind [] (c ∷ bl) (b ∷ acc) (here, h) =
    rw here (ap (λ r. (b ∷ acc) ∷ r) (fields_from-behind [] bl [] h))
fields_from-behind (c ∷ s) bl [] h = elim (Bool-cases (is_space c)) [
  | inl e ↦ rw e (fields_from-behind s bl [] h)
  | inr e ↦ rw e (fields_from-behind s bl (c ∷ []) h)
]
fields_from-behind (c ∷ s) bl (b ∷ acc) h = elim (Bool-cases (is_space c)) [
  | inl e ↦ rw e (ap (λ r. (b ∷ acc) ∷ r) (fields_from-behind s bl [] h))
  | inr e ↦ rw e (fields_from-behind s bl ((b ∷ acc) ++ c ∷ []) h)
]

trim_left_split : (s : Bytes) → (lead : Bytes) × IsBlank lead × (s ≡ lead ++ trim_left is_space s)
unfolding trim_left
trim_left_split [] = ([], tt, refl)
trim_left_split (c ∷ s) = elim (Bool-cases (is_space c)) [
  | inl h ↦
      let (lead, blank, e) = trim_left_split s in (c ∷ lead, (h, blank), rw h (ap (λ r. c ∷ r) e))
  | inr h ↦ ([], tt, rw h refl)
]

All-reverse {ℓ κ} : {A : Type ℓ} (P : A → Type κ) (xs : List A) → All P xs → All P (reverse xs)
All-reverse P [] h = tt
All-reverse P (x ∷ xs) (p, h) =
    subst (All P) (sym (reverse-cons x xs))
      (All-append P (reverse xs) (x ∷ []) (All-reverse P xs h) (p, tt))

abbrev trim_right : Bytes → Bytes
trim_right s = reverse (trim_left is_space (reverse s))

trim_right_split : (s : Bytes) → (behind : Bytes) × IsBlank behind × (s ≡ trim_right s ++ behind)
trim_right_split s =
    let (lead, blank, e) = trim_left_split (reverse s) in
    (
      reverse lead,
      All-reverse (λ c. is_space c ≡ true) lead blank,
      sym (reverse-reverse s) ∙ ap reverse e ∙ reverse-append lead (trim_left is_space (reverse s)),
    )

fields-trim_right : (s : Bytes) → fields (trim_right s) ≡ fields s
unfolding fields
fields-trim_right s =
    let (behind, blank, e) = trim_right_split s in
    sym (fields_from-behind (trim_right s) behind [] blank) ∙ ap fields (sym e)

-- `TrimSpace` takes no word away.
pub fields-trim_space : (s : Bytes) → fields (trim_space s) ≡ fields s
unfolding trim_space trim
fields-trim_space s = fields-trim_right (trim_left is_space s) ∙ fields-trim_left s

front_stays :
    (c : ℕ) (r y behind : Bytes)
    → is_space c ≡ false
    → IsBlank behind
    → c ∷ r ≡ y ++ behind
    → (left : Bytes) × (y ≡ c ∷ left) × (fields left ≡ fields r)
unfolding fields
front_stays c r [] [] h blank e = absurd (cc e)
front_stays c r [] (d ∷ behind) h (here, blank) e = absurd (ground arith)
front_stays c r (d ∷ y) behind h blank e =
    let rest : y ++ behind ≡ r = cc e in
    (y, cc e, sym (fields_from-behind y behind [] blank) ∙ ap fields rest)

-- A byte that is no white space stays in front.
pub trim_space-solid :
    (c : ℕ) (r : Bytes)
    → is_space c ≡ false
    → (left : Bytes) × (trim_space (c ∷ r) ≡ c ∷ left) × (fields left ≡ fields r)
unfolding trim_space trim trim_left
trim_space-solid c r h =
    let (behind, blank, e) = trim_right_split (c ∷ r) in
    let (left, same, words) = front_stays c r (trim_right (c ∷ r)) behind h blank e in
    (left, rw h same, words)

-- A text whose two ends are no white space is left as it is.
pub trim_space-solid_ends :
    (c : ℕ) (m : Bytes) (d : ℕ)
    → is_space c ≡ false
    → is_space d ≡ false
    → trim_space (c ∷ (m ++ d ∷ [])) ≡ c ∷ (m ++ d ∷ [])
unfolding trim_space trim trim_left
trim_space-solid_ends c m d h k =
    let s = c ∷ (m ++ d ∷ []) in
    let turned : reverse s ≡ d ∷ reverse (c ∷ m) = reverse-append (c ∷ m) (d ∷ []) in
    let stays : trim_left is_space (d ∷ reverse (c ∷ m)) ≡ d ∷ reverse (c ∷ m) = rw k refl in
    let right : trim_right s ≡ s =
      ap (λ r. reverse (trim_left is_space r)) turned
      ∙ ap reverse (stays ∙ sym turned)
      ∙ reverse-reverse s in
    rw h right
