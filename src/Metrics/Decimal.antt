-- ===== src/Metrics/Decimal.antt =====
-- What `%d` writes, `ParseInt` reads back; so the fuel of `digits` is enough.
use directory_exporter.Common.{
  ℕ, zero, suc, ◌+◌, ◌-◌, ◌*◌, ◌/◌, ◌%◌, ◌^◌, ◌<◌, ◌≤◌, ltb, ℤ, pos, negsuc, IsInt64, Bool, true,
  false, [], ◌∷◌, ◌++◌, Bytes, some, ◌≡◌, inl, inr, arith, refl, ap, ◌∙◌, subst, Bool-cases, ltb→lt,
}
use directory_exporter.Go.Strconv.{read_digits, read_signed, signed, parse_int}
use directory_exporter.Metrics.Text.{digits, decimal}

read_digits-append :
    (m : ℕ) (xs ys : Bytes) (k : ℕ)
    → read_digits m xs ≡ some k
    → read_digits m (xs ++ ys) ≡ read_digits k ys
unfolding read_digits
read_digits-append m [] ys k h = ground arith
read_digits-append m (x ∷ xs) ys k h =
    ground (arith, read_digits-append (m * 10 + (x - b'0')) xs ys k)

read_one : (m d : ℕ) → d < 10 → read_digits m ((b'0' + d) ∷ []) ≡ some (m * 10 + d)
unfolding read_digits
read_one m d h = ground arith

digits_small : (fuel n : ℕ) → ltb n 10 ≡ true → digits (suc fuel) n ≡ (b'0' + n) ∷ []
unfolding digits
digits_small fuel n h = rw (h, digits) refl

digits_large :
    (fuel n : ℕ)
    → ltb n 10 ≡ false
    → digits (suc fuel) n ≡ digits fuel (n / 10) ++ (b'0' + n % 10) ∷ []
unfolding digits
digits_large fuel n h = rw (h, digits) refl

read_digits-digits : (fuel n : ℕ) → n < fuel → read_digits 0 (digits fuel n) ≡ some n
read_digits-digits zero n h = absurd (omega arith)
read_digits-digits (suc fuel) n h = elim (Bool-cases (ltb n 10)) [
  | inl small ↦
      rw (digits_small fuel n small) (read_one 0 n (ltb→lt n 10 small) ∙ ap some (omega arith))
  | inr large ↦
      let at_least : 10 ≤ n = ground arith in
      let before = read_digits-digits fuel (n / 10) (omega arith) in
      rw
        (
          digits_large fuel n large,
          read_digits-append 0 (digits fuel (n / 10)) ((b'0' + n % 10) ∷ []) (n / 10) before,
        )
        (read_one (n / 10) (n % 10) (omega arith) ∙ ap some (omega arith))
]

-- The first byte is a digit.
digits-first :
    (fuel n : ℕ) → n < fuel → (c : ℕ) × (s : Bytes) × (digits fuel n ≡ c ∷ s) × (b'0' ≤ c)
digits-first zero n h = absurd (omega arith)
digits-first (suc fuel) n h = elim (Bool-cases (ltb n 10)) [
  | inl small ↦ (b'0' + n, [], digits_small fuel n small, omega arith)
  | inr large ↦
      let at_least : 10 ≤ n = ground arith in
      let (c, s, p, q) = digits-first fuel (n / 10) (omega arith) in
      (
        c,
        s ++ (b'0' + n % 10) ∷ [],
        digits_large fuel n large ∙ ap (λ t. t ++ (b'0' + n % 10) ∷ []) p,
        q,
      )
]

read_signed-digits :
    (negative : Bool) (c : ℕ) (s : Bytes) (k : ℕ)
    → read_digits 0 (c ∷ s) ≡ some k
    → read_signed negative (c ∷ s) ≡ signed negative k
unfolding read_signed
read_signed-digits negative c s k p = rw (p, read_signed) refl

parse_unsigned : (c : ℕ) (s : Bytes) → b'0' ≤ c → parse_int (c ∷ s) ≡ read_signed false (c ∷ s)
unfolding parse_int
parse_unsigned c s h = ground arith

parse_negative : (s : Bytes) → parse_int (b'-' ∷ s) ≡ read_signed true s
unfolding parse_int
parse_negative s = refl

signed_pos : (n : ℕ) → n < 2 ^ 63 → signed false n ≡ some (pos n)
unfolding signed
signed_pos n h = ground arith

signed_neg : (n : ℕ) → n < 2 ^ 63 → signed true (n + 1) ≡ some (negsuc n)
unfolding signed
signed_neg n h = ground arith

-- For every `int64`, the digits that `%d` writes are read back as the same number by `ParseInt`.
pub parse_int-decimal : (z : ℤ) → IsInt64 z → parse_int (decimal z) ≡ some z
unfolding decimal
parse_int-decimal (pos n) h =
    let (c, s, p, q) = digits-first (n + 1) n (omega arith) in
    let reads : read_digits 0 (c ∷ s) ≡ some n =
      subst (λ t. read_digits 0 t ≡ some n) p (read_digits-digits (n + 1) n (omega arith)) in
    ap parse_int p
    ∙ parse_unsigned c s q
    ∙ read_signed-digits false c s n reads
    ∙ signed_pos n (omega (arith, h.below))
parse_int-decimal (negsuc n) h =
    let (c, s, p, q) = digits-first (n + 2) (n + 1) (omega arith) in
    let reads : read_digits 0 (c ∷ s) ≡ some (n + 1) =
      subst (λ t. read_digits 0 t ≡ some (n + 1)) p
        (read_digits-digits (n + 2) (n + 1) (omega arith)) in
    parse_negative (digits (n + 2) (n + 1))
    ∙ ap (read_signed true) p
    ∙ read_signed-digits true c s (n + 1) reads
    ∙ signed_neg n (omega (arith, h.above))
