-- ===== src/Metrics/Read/Lines.antt =====
-- What a text of whole lines gives to the reader of the text format.
use directory_exporter.Common.{
  Bool, true, false, not, ◌&&◌, ◌==◌, List, [], ◌∷◌, ◌++◌, append_assoc, append-nil, Option, none,
  some, Bytes, codes, ◌≡◌, arith, refl, sym, ap, ◌∙◌, subst,
}
use directory_exporter.Go.Strings.{split}
use directory_exporter.Metrics.Text.{help, typ, line_end}
use directory_exporter.Metrics.Read.{
  Sample, read_sample, is_comment, and_then, read_lines, read_text,
}

-- No byte ends a line.
abbrev pub one_line : Bytes → Bool
one_line [] = true
one_line (c ∷ s) = not (c == line_end) && one_line s

pub one_line-append :
    (s t : Bytes) → one_line s ≡ true → one_line t ≡ true → one_line (s ++ t) ≡ true
one_line-append [] t p q = q
one_line-append (c ∷ s) t p q = ground (arith, one_line-append s t)

split_line :
    (line rest : Bytes)
    → one_line line ≡ true
    → split (line ++ line_end ∷ rest) line_end ≡ line ∷ split rest line_end
unfolding split
split_line [] rest h = ground arith
split_line (c ∷ line) rest h = ground (arith, split_line line rest)

-- The text gives the samples, whatever text stands behind it.
pub record Reads (text : Bytes) (xs : List Sample) : Type 0 where
  pub gives : (rest : Bytes) → read_text (text ++ rest) ≡ and_then xs (read_text rest)

and_then-nil : (o : Option (List Sample)) → o ≡ and_then [] o
and_then-nil none = refl
and_then-nil (some xs) = refl

and_then-append :
    (xs ys : List Sample) (o : Option (List Sample))
    → and_then xs (and_then ys o) ≡ and_then (xs ++ ys) o
and_then-append xs ys none = refl
and_then-append xs ys (some zs) = ap some (sym (append_assoc xs ys zs))

pub Reads-nil : Reads [] []
Reads-nil = record { gives = λ rest. and_then-nil (read_text rest) }

pub Reads-append :
    {s t : Bytes} {xs ys : List Sample} → Reads s xs → Reads t ys → Reads (s ++ t) (xs ++ ys)
Reads-append {s} {t} {xs} {ys} first second = record {
  gives = λ rest. rw (append_assoc s t rest) (
      first.gives (t ++ rest)
      ∙ ap (and_then xs) (second.gives rest)
      ∙ and_then-append xs ys (read_text rest));
}

-- A text that gives samples up to its end.
pub Reads-end : {s : Bytes} {xs : List Sample} → Reads s xs → read_text s ≡ some xs
unfolding read_text read_lines split
Reads-end {s} {xs} reads =
    subst (λ t. read_text t ≡ some xs) (append-nil s) (reads.gives [] ∙ ap some (append-nil xs))

-- A comment gives nothing.
pub Reads-comment :
    (line : Bytes)
    → one_line line ≡ true
    → is_comment line ≡ true
    → Reads (line ++ line_end ∷ []) []
unfolding read_text read_lines
Reads-comment line whole comment = record {
  gives = λ rest.
      rw (append_assoc line (line_end ∷ []) rest, split_line line rest whole, comment)
        (and_then-nil (read_lines (split rest line_end)));
}

pub Reads-sample :
    (line : Bytes) (x : Sample)
    → one_line line ≡ true
    → is_comment line ≡ false
    → read_sample line ≡ some x
    → Reads (line ++ line_end ∷ []) (x ∷ [])
unfolding read_text read_lines
Reads-sample line x whole other reads = record {
  gives = λ rest.
      rw (append_assoc line (line_end ∷ []) rest, split_line line rest whole, other, reads) refl;
}

-- The lines that `help` and `typ` write.
pub Reads-help :
    (name text : Bytes) → one_line name ≡ true → one_line text ≡ true → Reads (help name text) []
unfolding help
Reads-help name text p q =
    subst (λ t. Reads t [])
      (ap (λ t. codes "# HELP " ++ t) (append_assoc name (b' ' ∷ text) (line_end ∷ [])))
      (Reads-comment (codes "# HELP " ++ (name ++ (b' ' ∷ text)))
        (one_line-append name (b' ' ∷ text) p q) refl)

pub Reads-typ :
    (name kind : Bytes) → one_line name ≡ true → one_line kind ≡ true → Reads (typ name kind) []
unfolding typ
Reads-typ name kind p q =
    subst (λ t. Reads t [])
      (ap (λ t. codes "# TYPE " ++ t) (append_assoc name (b' ' ∷ kind) (line_end ∷ [])))
      (Reads-comment (codes "# TYPE " ++ (name ++ (b' ' ∷ kind)))
        (one_line-append name (b' ' ∷ kind) p q) refl)
