-- ===== src/Go/Names.antt =====
-- Relative paths that are names joined by slashes: `Split`, `Trim`, `Clean` and `Join` on them.
use mathlib.Core.List.{reverse, reverse-append, reverse-reverse, reverse-cons, reverse_aux, foldl}
use directory_exporter.Common.{
  ℕ, Bool, false, List, [], eqb, ◌==◌, ◌∷◌, ◌++◌, append_assoc, Bytes, is_empty, ◌≡◌, ◌≢◌, arith,
  refl, sym, subst, All-append, ap, ◌∙◌, All,
}
use directory_exporter.Go.Strings.{split, trim, trim_left, join}
use directory_exporter.Go.FilePath.{slash, dot, dot_dot, clean, clean_step, join_path, is_rooted}

-- No byte is a slash.
abbrev pub NoSlash : Bytes → Type 0
NoSlash = All (λ c. c ≢ slash)

-- A name as a directory holds it.
pub record IsName (n : Bytes) : Type 0 where
  pub no_slash : NoSlash n
  pub not_empty : is_empty n ≡ false
  pub not_dot : eqb n dot ≡ false
  pub not_dot_dot : eqb n dot_dot ≡ false

abbrev pub joined : List Bytes → Bytes
joined ps = join ps (slash ∷ [])

split_plain : (n : Bytes) → NoSlash n → split n slash ≡ n ∷ []
unfolding split
split_plain [] h = refl
split_plain (c ∷ n) (h, hs) = ground (arith, split_plain n hs)

split_first : (n s : Bytes) → NoSlash n → split (n ++ slash ∷ s) slash ≡ n ∷ split s slash
unfolding split
split_first [] s h = ground arith
split_first (c ∷ n) s (h, hs) = ground (arith, split_first n s hs)

joined-cons : (p q : Bytes) (ps : List Bytes) → joined (p ∷ q ∷ ps) ≡ p ++ slash ∷ joined (q ∷ ps)
unfolding join
joined-cons p q ps = refl

pub joined_one : (p : Bytes) → joined (p ∷ []) ≡ p
unfolding join
joined_one p = refl

-- Splitting names joined by slashes gives the names back.
pub split-joined :
    (p : Bytes) (ps : List Bytes) → All IsName (p ∷ ps) → split (joined (p ∷ ps)) slash ≡ p ∷ ps
split-joined p [] (h, _) = rw joined_one (split_plain p h.no_slash)
split-joined p (q ∷ ps) (h, hs) =
    rw (joined-cons, split_first p (joined (q ∷ ps)) h.no_slash, split-joined q ps hs)

-- The first byte of a text is there, and is not a slash.
abbrev StartsPlain : Bytes → Type 0
StartsPlain [] = ⊥
StartsPlain (c ∷ _) = c ≢ slash

trim_left_plain : (s : Bytes) → StartsPlain s → trim_left (λ c. c == slash) s ≡ s
unfolding trim_left
trim_left_plain [] h = absurd h
trim_left_plain (c ∷ s) h = ground arith

StartsPlain-append : (s t : Bytes) → StartsPlain s → StartsPlain (s ++ t)
StartsPlain-append [] t h = absurd h
StartsPlain-append (c ∷ s) t h = h

StartsPlain-name : (n : Bytes) → IsName n → StartsPlain n
StartsPlain-name [] h = absurd (ground (arith, h.not_empty))
StartsPlain-name (c ∷ n) h = h.no_slash.0

StartsPlain-reverse : (c : ℕ) (n : Bytes) → NoSlash (c ∷ n) → StartsPlain (reverse (c ∷ n))
StartsPlain-reverse c [] h = h.0
StartsPlain-reverse c (d ∷ n) h =
    subst StartsPlain (sym (reverse-cons c (d ∷ n)))
      (StartsPlain-append (reverse (d ∷ n)) (c ∷ []) (StartsPlain-reverse d n h.1))

StartsPlain-reverse_name : (n : Bytes) → IsName n → StartsPlain (reverse n)
StartsPlain-reverse_name [] h = absurd (ground (arith, h.not_empty))
StartsPlain-reverse_name (c ∷ n) h = StartsPlain-reverse c n h.no_slash

joined-StartsPlain :
    (p : Bytes) (ps : List Bytes) → All IsName (p ∷ ps) → StartsPlain (joined (p ∷ ps))
joined-StartsPlain p [] (h, _) = subst StartsPlain (sym (joined_one p)) (StartsPlain-name p h)
joined-StartsPlain p (q ∷ ps) (h, _) =
    subst StartsPlain (sym (joined-cons p q ps)) (StartsPlain-append p _ (StartsPlain-name p h))

joined-EndsPlain :
    (p : Bytes) (ps : List Bytes) → All IsName (p ∷ ps) → StartsPlain (reverse (joined (p ∷ ps)))
joined-EndsPlain p [] (h, _) =
    subst (λ s. StartsPlain (reverse s)) (sym (joined_one p)) (StartsPlain-reverse_name p h)
joined-EndsPlain p (q ∷ ps) (h, hs) =
    let e : reverse (joined (p ∷ q ∷ ps)) ≡ (reverse (joined (q ∷ ps)) ++ slash ∷ []) ++ reverse p =
      ap reverse (joined-cons p q ps)
      ∙ (reverse-append p (slash ∷ joined (q ∷ ps))
          ∙ ap (λ s. s ++ reverse p) (reverse-cons slash (joined (q ∷ ps)))) in
    subst StartsPlain (sym e) (
      StartsPlain-append _ (reverse p)
        (StartsPlain-append _ (slash ∷ []) (joined-EndsPlain q ps hs)))

-- There is no slash to trim.
pub trim-joined :
    (p : Bytes) (ps : List Bytes)
    → All IsName (p ∷ ps)
    → trim (λ c. c == slash) (joined (p ∷ ps)) ≡ joined (p ∷ ps)
unfolding trim
trim-joined p ps hs =
    rw
      (trim_left_plain _ (joined-StartsPlain p ps hs), trim_left_plain _ (joined-EndsPlain p ps hs))
      (reverse-reverse (joined (p ∷ ps)))

clean_step_name :
    (rooted : Bool) (kept : List Bytes) (n : Bytes) → IsName n → clean_step rooted kept n ≡ n ∷ kept
unfolding clean_step
clean_step_name rooted kept n h = rw (h.not_empty, h.not_dot, h.not_dot_dot)

clean_names :
    (rooted : Bool) (ps kept : List Bytes)
    → All IsName ps
    → foldl (clean_step rooted) kept ps ≡ reverse_aux ps kept
clean_names rooted [] kept hs = refl
clean_names rooted (p ∷ ps) kept (h, hs) =
    rw (clean_step_name rooted kept p h) (clean_names rooted ps (p ∷ kept) hs)

is_rooted_plain : (s : Bytes) → StartsPlain s → (is_rooted s ≡ false) × (is_empty s ≡ false)
is_rooted_plain [] h = absurd h
is_rooted_plain (c ∷ s) h = ground arith

pub joined-filled :
    (p : Bytes) (ps : List Bytes) → All IsName (p ∷ ps) → is_empty (joined (p ∷ ps)) ≡ false
joined-filled p ps hs = (is_rooted_plain _ (joined-StartsPlain p ps hs)).1

-- Such a path is clean.
pub clean-joined :
    (p : Bytes) (ps : List Bytes) → All IsName (p ∷ ps) → clean (joined (p ∷ ps)) ≡ joined (p ∷ ps)
unfolding clean
clean-joined p ps hs =
    let (unrooted, filled) = is_rooted_plain _ (joined-StartsPlain p ps hs) in
    rw (unrooted, split-joined p ps hs, clean_names false (p ∷ ps) [] hs, reverse-reverse (p ∷ ps))
      (rw filled)

joined-snoc :
    (p : Bytes) (ps : List Bytes) (n : Bytes)
    → joined (p ∷ ps) ++ slash ∷ n ≡ joined ((p ∷ ps) ++ n ∷ [])
joined-snoc p [] n = rw (joined_one, joined-cons, joined_one)
joined-snoc p (q ∷ ps) n =
    rw (joined-cons p q ps, append_assoc, joined-snoc q ps n) (sym (joined-cons p q _))

-- `Join` puts a name behind such a path.
pub join_path-joined :
    (p : Bytes) (ps : List Bytes) (n : Bytes)
    → All IsName (p ∷ ps)
    → IsName n
    → join_path (joined (p ∷ ps)) n ≡ joined ((p ∷ ps) ++ n ∷ [])
unfolding join_path
join_path-joined p ps n hs h =
    let (_, filled) = is_rooted_plain _ (joined-StartsPlain p ps hs) in
    rw (filled, joined-snoc p ps n)
      (clean-joined p (ps ++ n ∷ []) (hs.0, All-append IsName ps (n ∷ []) hs.1 (h, tt)))
