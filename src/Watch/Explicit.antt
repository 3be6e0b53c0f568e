-- ===== src/Watch/Explicit.antt =====
-- What `resolveExplicitDirs` and `discoverTargets` return.
use mathlib.Core.List.{flat_map, head?}
use directory_exporter.Common.{
  member, Distinct, ℕ, ◌&&◌, not, List, [], eqb_refl, eqb_iff, Bool-cases, map, ◌∷◌, ◌++◌,
  append_assoc, append-nil, Option, none, some, Bytes, Error, if◌then◌else◌, ◌≡◌, ◌⊎◌, arith, inl,
  inr, refl, sym, subst, ap, ◌∙◌, select, ◌==◌,
}
use directory_exporter.Types.{Target, WatchEntry}
use directory_exporter.Go.Os.{FileSystem}
use directory_exporter.Go.Strings.{split, join}
use directory_exporter.Go.FilePath.{slash, clean}
use directory_exporter.Go.Names.{NoSlash}
use directory_exporter.Watch.Walk.{first_part, later_parts}
use directory_exporter.Watch.Targets.{
  explicit_labels, explicit_entry, resolve_from, resolve_explicit_dirs, discover_target,
  discover_from, discover_targets,
}

-- The paths that are not among those seen, each once.
fresh : List Bytes → List Bytes → List Bytes
fresh seen [] = []
fresh seen (r ∷ rs) =
    let skip = fresh seen rs in
    let rest = fresh (r ∷ seen) rs in if member r seen then skip else r ∷ rest

member-fresh :
    (k : Bytes) (seen rs : List Bytes)
    → member k (fresh seen rs) ≡ (member k rs && not (member k seen))
unfolding fresh member
member-fresh k seen [] = refl
member-fresh k seen (r ∷ rs) =
    ground (arith, member-fresh k seen rs, member-fresh k (r ∷ seen) rs, eqb_iff k r)

fresh-Distinct : (seen rs : List Bytes) → Distinct (fresh seen rs)
unfolding fresh member
fresh-Distinct seen [] = tt
fresh-Distinct seen (r ∷ rs) = elim (Bool-cases (member r seen)) [
  | inl old ↦ rw old (fresh-Distinct seen rs)
  | inr new ↦
      rw new
        (ground (arith, member-fresh r (r ∷ seen) rs, eqb_refl r), fresh-Distinct (r ∷ seen) rs)
]

resolve_from-fresh :
    (base label : Bytes) (seen dirs : List Bytes)
    → resolve_from base label seen dirs
      ≡ map (explicit_entry base label) (fresh seen (map clean dirs))
unfolding resolve_from fresh
resolve_from-fresh base label seen [] = refl
resolve_from-fresh base label seen (d ∷ dirs) = ground (
  arith,
  resolve_from-fresh base label seen dirs,
  resolve_from-fresh base label (clean d ∷ seen) dirs,
)

-- The entries for explicit directories are those of a list of relative paths in which none stands
-- twice, and which holds exactly the configured paths after cleaning.
resolve_explicit_dirs-Distinct :
    (base label : Bytes) (dirs : List Bytes)
    → (rels : List Bytes) × (resolve_explicit_dirs base label dirs
        ≡ map (explicit_entry base label) rels)
      × Distinct rels
      × ((k : Bytes) → member k rels ≡ member k (map clean dirs))
unfolding resolve_explicit_dirs
resolve_explicit_dirs-Distinct base label dirs = (
  fresh [] (map clean dirs),
  resolve_from-fresh base label [] dirs,
  fresh-Distinct [] (map clean dirs),
  λ k. unfold member in ground (arith, member-fresh k [] (map clean dirs)),
)

abbrev glued : List Bytes → Bytes
glued ps = join ps (slash ∷ [])

split-filled : (s : Bytes) → (p : Bytes) × (ps : List Bytes) × (split s slash ≡ p ∷ ps)
unfolding split
split-filled [] = ([], [], refl)
split-filled (c ∷ s) =
    let (p, ps, e) = split-filled s in
    elim (Bool-cases (c == slash)) [
      | inl cut ↦ ([], split s slash, rw cut)
      | inr plain ↦ (c ∷ p, ps, rw (plain, e))
    ]

glued-cons_first : (c : ℕ) (p : Bytes) (ps : List Bytes) → glued ((c ∷ p) ∷ ps) ≡ c ∷ glued (p ∷ ps)
unfolding join
glued-cons_first c p [] = refl
glued-cons_first c p (q ∷ ps) = refl

glued-nil_first : (p : Bytes) (ps : List Bytes) → glued ([] ∷ p ∷ ps) ≡ slash ∷ glued (p ∷ ps)
unfolding join
glued-nil_first p ps = refl

-- Joining the parts of a text gives it back.
pub glued-split : (s : Bytes) → glued (split s slash) ≡ s
unfolding split
glued-split [] = unfold join in refl
glued-split (c ∷ s) =
    let (p, ps, e) = split-filled s in
    let whole : glued (p ∷ ps) ≡ s = subst (λ qs. glued qs ≡ s) e (glued-split s) in
    elim (Bool-cases (c == slash)) [
      | inl cut ↦ rw (cut, e, glued-nil_first, whole) (ground arith)
      | inr plain ↦ rw (plain, e, glued-cons_first, whole)
    ]

first_part-NoSlash : (s : Bytes) → NoSlash (first_part (split s slash))
unfolding split
first_part-NoSlash [] = tt
first_part-NoSlash (c ∷ s) =
    let (p, ps, e) = split-filled s in
    let plain_part : NoSlash p = subst (λ qs. NoSlash (first_part qs)) e (first_part-NoSlash s) in
    elim (Bool-cases (c == slash)) [
      | inl cut ↦ rw cut tt
      | inr plain ↦ rw (plain, e) (ground arith, plain_part)
    ]

glued_parts :
    (p : Bytes) (ps : List Bytes) {s : Bytes}
    → glued (p ∷ ps) ≡ s
    → ((s ≡ p) × (glued ps ≡ [])) ⊎ (s ≡ p ++ slash ∷ glued ps)
unfolding join
glued_parts p [] h = inl (sym h, refl)
glued_parts p (q ∷ ps) h = inr (sym h)

-- The labels of an explicit directory spell its relative path: the stream is its first component,
-- and the type is "" where there is no other, or what stands behind the stream and a slash.
explicit_labels-spell :
    (label rel : Bytes)
    → let l = explicit_labels label rel in
      (l.base ≡ label)
      × NoSlash l.stream
      × (((rel ≡ l.stream) × (l.kind ≡ [])) ⊎ (rel ≡ l.stream ++ slash ∷ l.kind))
unfolding explicit_labels
explicit_labels-spell label rel =
    let (p, ps, e) = split-filled rel in
    (
      refl,
      first_part-NoSlash rel,
      subst
          (λ qs.
            ((rel ≡ first_part qs) × (glued (later_parts qs) ≡ []))
            ⊎ (rel ≡ first_part qs ++ slash ∷ glued (later_parts qs)))
          (sym e) (glued_parts p ps (subst (λ qs. glued qs ≡ rel) e (glued-split rel))),
    )

-- The first error of a list of targets.
abbrev first_error : FileSystem → List Target → Option Error → Option Error
first_error fs [] e = e
first_error fs (t ∷ ts) e =
    first_error fs ts (elim e [ none ↦ (discover_target fs t).1 | some f ↦ some f ])

discover_from-flat_map :
    (fs : FileSystem) (ts : List Target) (all : List WatchEntry) (e : Option Error)
    → discover_from fs ts all e
      ≡ (all ++ flat_map (λ t. (discover_target fs t).0) ts, first_error fs ts e)
unfolding discover_from flat_map
discover_from-flat_map fs [] all e = rw append-nil
discover_from-flat_map fs (t ∷ ts) all e = rw (discover_from-flat_map fs ts, append_assoc)

first_error-some :
    (fs : FileSystem) (ts : List Target) (e : Error) → first_error fs ts (some e) ≡ some e
first_error-some fs [] e = refl
first_error-some fs (t ∷ ts) e = first_error-some fs ts e

-- The errors of all targets, in order.
abbrev pub target_errors : FileSystem → List Target → List Error
target_errors fs = select (λ t. (discover_target fs t).1)

-- One round of the loop, at the error of its target.
first_error-round :
    (fs : FileSystem) (ts : List Target) (o : Option Error)
    → first_error fs ts none ≡ head? (target_errors fs ts)
    → first_error fs ts o
      ≡ head? (elim o [ none ↦ target_errors fs ts | some e ↦ e ∷ target_errors fs ts ])
first_error-round fs ts none ih = ih
first_error-round fs ts (some e) ih = first_error-some fs ts e

first_error-head :
    (fs : FileSystem) (ts : List Target) → first_error fs ts none ≡ head? (target_errors fs ts)
first_error-head fs [] = refl
first_error-head fs (t ∷ ts) =
    first_error-round fs ts (discover_target fs t).1 (first_error-head fs ts)

-- A target that fails takes no entry from the others: the watch list holds the entries of every
-- target in order, and the error is that of the first target that has one.
pub discover_targets-flat_map :
    (fs : FileSystem) (ts : List Target)
    → discover_targets fs ts
      ≡ (flat_map (λ t. (discover_target fs t).0) ts, head? (target_errors fs ts))
unfolding discover_targets
discover_targets-flat_map fs ts =
    discover_from-flat_map fs ts [] none
    ∙ ap (λ e. (flat_map (λ t. (discover_target fs t).0) ts, e)) (first_error-head fs ts)
