-- ===== src/Metrics/Read/Labels.antt =====
-- What the reader of the text format makes of the labels and samples that `RenderMetrics` writes.
use directory_exporter.Common.{
  ℕ, zero, suc, ◌≤◌, Bool, true, false, ◌&&◌, List, [], ◌∷◌, ◌++◌, append_assoc, some, Bytes,
  length, length-append, ◌≡◌, arith, refl, ap, ◌∙◌, subst, All,
}
use directory_exporter.Go.Strings.{replace_byte}
use directory_exporter.Metrics.Text.{lv, escape, line_end, quote}
use directory_exporter.Metrics.Escape.{read_label-lv, escape_byte, escape-cons}
use directory_exporter.Metrics.Render.{plain, labelled}
use directory_exporter.Metrics.Read.{is_name_byte, span_name, read_labels, read_sample, is_comment}
use directory_exporter.Metrics.Read.Lines.{one_line, one_line-append, Reads, Reads-sample}

-- A name of the text format.
abbrev pub all_name : Bytes → Bool
all_name [] = true
all_name (c ∷ s) = is_name_byte c && all_name s

pub span_name-append :
    (name s : Bytes) (c : ℕ)
    → all_name name ≡ true
    → is_name_byte c ≡ false
    → span_name (name ++ c ∷ s) ≡ (name, c ∷ s)
unfolding span_name
span_name-append [] s c p q = rw q refl
span_name-append (d ∷ name) s c p q =
    let (first, rest) = and_parts (is_name_byte d) (all_name name) p in
    rw (span_name-append name s c rest q, first) refl
  where
    and_parts : (a b : Bool) → (a && b) ≡ true → (a ≡ true) × (b ≡ true)
    and_parts a b h = ground arith

all_name-one_line : (s : Bytes) → all_name s ≡ true → one_line s ≡ true
all_name-one_line [] h = refl
all_name-one_line (c ∷ s) h = ground (arith, all_name-one_line s)

escape_byte-one_line : (c : ℕ) → one_line (escape_byte c) ≡ true
unfolding escape_byte
escape_byte-one_line c = ground arith

escape-one_line : (s : Bytes) → one_line (escape s) ≡ true
unfolding escape replace_byte
escape-one_line [] = refl
escape-one_line (c ∷ s) =
    rw (escape-cons c s)
      (one_line-append (escape_byte c) (escape s) (escape_byte-one_line c) (escape-one_line s))

lv-one_line : (s : Bytes) → one_line (lv s) ≡ true
unfolding lv
lv-one_line s = one_line-append (escape s) (quote ∷ []) (escape-one_line s) refl

-- Labels as they stand between the braces.
abbrev pub label_text : List (Bytes × Bytes) → Bytes
label_text [] = []
label_text ((key, value) ∷ []) = key ++ b'=' ∷ lv value
label_text ((key, value) ∷ (l ∷ ls)) = key ++ b'=' ∷ (lv value ++ b',' ∷ label_text (l ∷ ls))

abbrev pub HasNames : List (Bytes × Bytes) → Type 0
HasNames = All (λ l. all_name l.0 ≡ true)

abbrev pub filled {ℓ} : {A : Type ℓ} → List A → Bool
filled [] = false
filled (x ∷ xs) = true

read_labels-text :
    (labels : List (Bytes × Bytes)) (rest : Bytes) (fuel : ℕ)
    → filled labels ≡ true
    → HasNames labels
    → length labels ≤ fuel
    → read_labels fuel (label_text labels ++ b'}' ∷ rest) ≡ some (labels, rest)
unfolding read_labels
read_labels-text [] rest fuel f h p = absurd (cc f)
read_labels-text (l ∷ ls) rest zero f h p = absurd (omega arith)
read_labels-text ((key, value) ∷ []) rest (suc fuel) f (h, _) p =
    rw
      (
        append_assoc key (b'=' ∷ lv value) (b'}' ∷ rest),
        span_name-append key (lv value ++ b'}' ∷ rest) b'=' h refl,
        read_label-lv value (b'}' ∷ rest),
      )
      refl
read_labels-text ((key, value) ∷ (l ∷ ls)) rest (suc fuel) f (h, hs) p =
    rw
      (
        append_assoc key (b'=' ∷ (lv value ++ b',' ∷ label_text (l ∷ ls))) (b'}' ∷ rest),
        append_assoc (lv value) (b',' ∷ label_text (l ∷ ls)) (b'}' ∷ rest),
        span_name-append key (lv value ++ b',' ∷ (label_text (l ∷ ls) ++ b'}' ∷ rest)) b'=' h refl,
        read_label-lv value (b',' ∷ (label_text (l ∷ ls) ++ b'}' ∷ rest)),
        read_labels-text (l ∷ ls) rest fuel refl hs (omega arith),
      )
      refl

length-label_text : (labels : List (Bytes × Bytes)) → length labels ≤ length (label_text labels)
length-label_text [] = omega arith
length-label_text ((key, value) ∷ []) = omega (arith, length-append key (b'=' ∷ lv value))
length-label_text ((key, value) ∷ (l ∷ ls)) = omega (
  arith,
  length-append key (b'=' ∷ (lv value ++ b',' ∷ label_text (l ∷ ls))),
  length-append (lv value) (b',' ∷ label_text (l ∷ ls)),
  length-label_text (l ∷ ls),
)

label_text-one_line :
    (labels : List (Bytes × Bytes)) → HasNames labels → one_line (label_text labels) ≡ true
label_text-one_line [] h = refl
label_text-one_line ((key, value) ∷ []) (h, _) =
    one_line-append key (b'=' ∷ lv value) (all_name-one_line key h) (lv-one_line value)
label_text-one_line ((key, value) ∷ (l ∷ ls)) (h, hs) =
    one_line-append key _ (all_name-one_line key h) (
      one_line-append (lv value) (b',' ∷ label_text (l ∷ ls)) (lv-one_line value)
        (label_text-one_line (l ∷ ls) hs))

-- A name does not start a comment.
name-is_comment :
    (name s : Bytes) → filled name ≡ true → all_name name ≡ true → is_comment (name ++ s) ≡ false
name-is_comment [] s f h = cc f
name-is_comment (c ∷ name) s f h = ground arith

-- A metric's name, and labels with names.
pub record IsWritable (name : Bytes) (labels : List (Bytes × Bytes)) : Type 0 where
  pub name_filled : filled name ≡ true
  pub is_name : all_name name ≡ true
  pub labels_filled : filled labels ≡ true
  pub are_names : HasNames labels

read_sample-labelled :
    (name : Bytes) (labels : List (Bytes × Bytes)) (value : Bytes)
    → IsWritable name labels
    → read_sample (name ++ b'{' ∷ (label_text labels ++ b'}' ∷ b' ' ∷ value))
      ≡ some (record { name = name; labels = labels; value = value })
unfolding read_sample
read_sample-labelled name labels value w =
    let behind = label_text labels ++ b'}' ∷ b' ' ∷ value in
    let enough : length labels ≤ length behind =
      omega (
        arith,
        length-label_text labels,
        length-append (label_text labels) (b'}' ∷ b' ' ∷ value),
      ) in
    rw
      (
        span_name-append name behind b'{' w.is_name refl,
        read_labels-text labels (b' ' ∷ value) (length behind) w.labels_filled w.are_names enough,
      )
      refl

-- A line that `labelled` writes gives its sample.
pub Reads-labelled :
    (name : Bytes) (labels : List (Bytes × Bytes)) (value : Bytes)
    → IsWritable name labels
    → one_line value ≡ true
    → Reads
        (labelled name (label_text labels) value)
        (record { name = name; labels = labels; value = value } ∷ [])
unfolding labelled
Reads-labelled name labels value w h =
    let behind = label_text labels ++ b'}' ∷ b' ' ∷ value in
    let whole : one_line (name ++ b'{' ∷ behind) ≡ true =
      one_line-append name (b'{' ∷ behind) (all_name-one_line name w.is_name) (
        one_line-append (label_text labels) (b'}' ∷ b' ' ∷ value)
          (label_text-one_line labels w.are_names) h) in
    subst (λ t. Reads t (record { name = name; labels = labels; value = value } ∷ []))
      (append_assoc name (b'{' ∷ behind) (line_end ∷ [])
        ∙ ap (λ t. name ++ b'{' ∷ t)
            (append_assoc (label_text labels) (b'}' ∷ b' ' ∷ value) (line_end ∷ [])))
      (Reads-sample (name ++ b'{' ∷ behind) _ whole
        (name-is_comment name (b'{' ∷ behind) w.name_filled w.is_name)
        (read_sample-labelled name labels value w))

-- So does one that `plain` writes.
pub Reads-plain :
    (name value : Bytes)
    → filled name ≡ true
    → all_name name ≡ true
    → one_line value ≡ true
    → Reads (plain name value) (record { name = name; labels = []; value = value } ∷ [])
unfolding plain read_sample
Reads-plain name value f n h =
    let reads : read_sample (name ++ b' ' ∷ value)
        ≡ some (record { name = name; labels = []; value = value }) =
      rw (span_name-append name value b' ' n refl) refl in
    subst (λ t. Reads t (record { name = name; labels = []; value = value } ∷ []))
      (append_assoc name (b' ' ∷ value) (line_end ∷ []))
      (Reads-sample (name ++ b' ' ∷ value) _
        (one_line-append name (b' ' ∷ value) (all_name-one_line name n) h)
        (name-is_comment name (b' ' ∷ value) f n) reads)
