-- ===== src/Metrics/Scrape/Families.antt =====
-- What a reader of the text format gets from one family of metrics that `RenderMetrics` writes.
use directory_exporter.Common.{
  ℕ, zero, suc, ◌+◌, ◌/◌, ◌%◌, ltb, ℤ, pos, negsuc, Bool, true, false, ◌&&◌, List, [], ◌∷◌, ◌++◌,
  append_assoc, Bytes, codes, ◌≡◌, arith, refl, ap, ◌∙◌, Bool-cases, inl, inr,
}
use directory_exporter.Types.{DirMetrics, NodeActivity}
use directory_exporter.Metrics.Text.{digits, decimal, lv}
use directory_exporter.Metrics.Render.{
  Format, any, each, family, plain, dir_labels, node_labels, gauge, dir_family, node_family,
  file_labels,
}
use directory_exporter.Metrics.Read.{Sample}
use directory_exporter.Metrics.Read.Lines.{
  one_line, one_line-append, Reads, Reads-nil, Reads-append, Reads-help, Reads-typ,
}
use directory_exporter.Metrics.Read.Labels.{
  filled, all_name, label_text, Reads-labelled, Reads-plain,
}
use directory_exporter.Metrics.Samples.{
  each_sample, plain_sample, dir_sample, node_sample, file_sample,
}

digits-one_line : (fuel n : ℕ) → one_line (digits fuel n) ≡ true
unfolding digits
digits-one_line zero n = refl
digits-one_line (suc fuel) n = elim (Bool-cases (ltb n 10)) [
  | inl small ↦ rw small (ground arith)
  | inr large ↦ rw large (
      one_line-append (digits fuel (n / 10)) ((b'0' + n % 10) ∷ []) (digits-one_line fuel (n / 10))
        (ground arith))
]

pub decimal-one_line : (z : ℤ) → one_line (decimal z) ≡ true
unfolding decimal
decimal-one_line (pos n) = digits-one_line (n + 1) n
decimal-one_line (negsuc n) = digits-one_line (n + 2) (n + 1)

module _ {ℓ} {A : Type ℓ} where
  pub Reads-each :
      (test : A → Bool) (write : A → Bytes) (f : A → Sample)
      → ((x : A) → Reads (write x) (f x ∷ []))
      → (xs : List A) → Reads (each test write xs) (each_sample test f xs)
  unfolding each each_sample
  Reads-each test write f reads [] = Reads-nil
  Reads-each test write f reads (x ∷ xs) = elim (Bool-cases (test x)) [
    | inl yes_x ↦ rw yes_x (Reads-append (reads x) (Reads-each test write f reads xs))
    | inr no_x ↦ rw no_x (Reads-each test write f reads xs)
  ]

  -- Where no item passes a test, none gives a sample under a stronger test.
  pub each_sample-none :
      (test stronger : A → Bool) (f : A → Sample)
      → ((x : A) → stronger x ≡ true → test x ≡ true)
      → (xs : List A) → any test xs ≡ false
      → each_sample stronger f xs ≡ []
  unfolding any each_sample
  each_sample-none test stronger f implies [] h = refl
  each_sample-none test stronger f implies (x ∷ xs) h = elim (Bool-cases (stronger x)) [
    | inl yes_x ↦ absurd (ground (arith, implies x yes_x))
    | inr no_x ↦ rw no_x (each_sample-none test stronger f implies xs (ground arith))
  ]

-- The words of a family are names and stay on one line.
pub record IsFamily (name kind text : Bytes) : Type 0 where
  name_filled : filled name ≡ true
  is_name : all_name name ≡ true
  name_line : one_line name ≡ true
  kind_line : one_line kind ≡ true
  text_line : one_line text ≡ true

pub words :
    {name kind text : Bytes}
    → (filled name && (all_name name && (one_line name && (one_line kind && one_line text)))) ≡ true
    → IsFamily name kind text
words {name} {kind} {text} h = record {
  name_filled = ground arith;
  is_name = ground arith;
  name_line = ground arith;
  kind_line = ground arith;
  text_line = ground arith;
}

pub Reads-family :
    (name kind text written : Bytes) (xs : List Sample)
    → IsFamily name kind text
    → Reads written xs
    → Reads (family name kind text written) xs
unfolding family
Reads-family name kind text written xs f reads =
    Reads-append (Reads-help name text f.name_line f.text_line)
      (Reads-append (Reads-typ name kind f.name_line f.kind_line) reads)

pub Reads-plain-family :
    (name kind text value : Bytes)
    → IsFamily name kind text
    → one_line value ≡ true
    → Reads (family name kind text (plain name value)) (plain_sample name value ∷ [])
Reads-plain-family name kind text value f h =
    Reads-family name kind text (plain name value) _ f
      (Reads-plain name value f.name_filled f.is_name h)

-- What `%g` writes stays on one line.
pub record IsPlain (fmt : Format) : Type 0 where
  pub whole : (z : ℤ) → one_line (fmt.whole z) ≡ true
  pub duration : (n : ℕ) → one_line (fmt.duration n) ≡ true

dir_labels-text :
    (dm : DirMetrics) (name : Bytes) (value : DirMetrics → Bytes)
    → dir_labels dm ≡ label_text (dir_sample name value dm).labels
unfolding dir_labels
dir_labels-text dm name value = refl

node_labels-text :
    (act : NodeActivity) (name : Bytes) (value : NodeActivity → Bytes)
    → node_labels act.base act.stream act.node ≡ label_text (node_sample name value act).labels
unfolding node_labels
node_labels-text act name value = refl

-- Labels behind those of a node.
pub node_labels-more :
    (base stream node more : Bytes)
    → node_labels base stream node ++ more
      ≡ codes "base="
        ++ (lv base ++ (codes ",stream=" ++ (lv stream ++ (codes ",node=" ++ (lv node ++ more)))))
unfolding node_labels
node_labels-more base stream node more =
    ap (λ t. codes "base=" ++ t)
      (append_assoc (lv base) _ more
        ∙ ap (λ t. lv base ++ (codes ",stream=" ++ t)) (append_assoc (lv stream) _ more))

pub file_labels-text :
    (fmt : Format) (act : NodeActivity) → file_labels fmt act ≡ label_text (file_sample act).labels
unfolding file_labels
file_labels-text fmt act = node_labels-more act.base act.stream act.node _

module _ (fmt : Format) (p : IsPlain fmt) where
  pub Reads-dir_family :
      (name text : Bytes) (test : DirMetrics → Bool) (value : DirMetrics → Bytes)
      → IsFamily name gauge text
      → ((dm : DirMetrics) → one_line (value dm) ≡ true)
      → (sorted : List DirMetrics)
      → Reads
          (dir_family fmt name text test value sorted)
          (each_sample test (dir_sample name value) sorted)
  unfolding dir_family
  Reads-dir_family name text test value f h sorted = Reads-family name gauge text _ _ f (
      Reads-each test _ (dir_sample name value)
        (λ dm. rw (dir_labels-text dm name value) (
          Reads-labelled name (dir_sample name value dm).labels (value dm)
            (record {
              name_filled = f.name_filled;
              is_name = f.is_name;
              labels_filled = refl;
              are_names = (refl, (refl, (refl, tt)));
            })
            (h dm)))
        sorted)

  pub Reads-node_family :
      (name text : Bytes) (test : NodeActivity → Bool) (value : NodeActivity → Bytes)
      → IsFamily name gauge text
      → ((act : NodeActivity) → one_line (value act) ≡ true)
      → (sorted : List NodeActivity)
      → Reads
          (node_family fmt name text test value sorted)
          (each_sample test (node_sample name value) sorted)
  unfolding node_family
  Reads-node_family name text test value f h sorted = Reads-family name gauge text _ _ f (
      Reads-each test _ (node_sample name value)
        (λ act. rw (node_labels-text act name value) (
          Reads-labelled name (node_sample name value act).labels (value act)
            (record {
              name_filled = f.name_filled;
              is_name = f.is_name;
              labels_filled = refl;
              are_names = (refl, (refl, (refl, tt)));
            })
            (h act)))
        sorted)
