-- ===== src/Watch/Exact/Children.antt =====
-- The entries of one directory in `discoverDirectories` (watchlist.go): which entries they lead to.
use mathlib.Core.List.{Memᴰ}
use directory_exporter.Common.{
  member, true, false, List, [], Bool-cases, ◌∷◌, Bytes, ◌≡◌, ◌⊎◌, ◌↔◌, arith, inl, inr, refl, sym,
  subst, ◌∙◌, ap,
}
use directory_exporter.Types.{WatchEntry}
use directory_exporter.Go.Os.{Result, ok, err, FileSystem, DirEntry}
use directory_exporter.Go.FilePath.{join_path}
use directory_exporter.Watch.Walk.{
  Found, is_child_dir, walk_child, walk_children, enter, child_rel, with_entries,
}
use directory_exporter.Watch.Ancestors.{Keeps, walk_child-Keeps}
use directory_exporter.Watch.Genuine.{note_err-entries}
use directory_exporter.Watch.Idle.{every}

-- A descent into a directory with the given real path keeps to the ancestors, or adds that path, which
-- must not be one of them.
abbrev pub Enters : Result Bytes → List Bytes → List Bytes → Type 0
Enters (err e) above below = below ≡ above
Enters (ok real) above below = (member real above ≡ false) × (below ≡ real ∷ above)

-- A set of entries that a walk adds.
abbrev pub Set : Type 1
Set = WatchEntry → Type 0

-- From the given ancestors a walk adds the entries of a set, and no others.
abbrev pub Gives : Set → List Bytes → (Found → Found) → Type 0
Gives S above f =
    (s : Found)
    → s.ancestors ≡ above
    → (w : WatchEntry) → Memᴰ w (f s).entries ↔ (Memᴰ w s.entries ⊎ S w)

enter-Gives :
    (real : Result Bytes) (f : Found → Found) (S : List Bytes → Set) (above : List Bytes)
    → ((below : List Bytes) → Enters real above below → Gives (S below) below f)
    → Gives (λ w. (below : List Bytes) × Enters real above below × S below w) above (enter real f)
unfolding enter
enter-Gives (err e) f S above gives s p w =
    let (there, back) = gives above refl s p w in
    (
      λ m. elim (there m) [ inl old ↦ inl old | inr new ↦ inr (above, refl, new) ],
      λ o. elim o [
        | inl old ↦ back (inl old)
        | inr (below, q, new) ↦ back (inr (subst (λ b. S b w) q new))
      ],
    )
enter-Gives (ok real) f S above gives s p w = elim (Bool-cases (member real s.ancestors)) [
  | inl known ↦ rw known (
    λ m. inl m,
    λ o. elim o [ inl old ↦ old | inr (below, q, new) ↦ absurd (ground (arith, q.0)) ],
  )
  | inr free ↦
      let absent : member real above ≡ false = subst (λ a. member real a ≡ false) p free in
      let (there, back) =
        gives (real ∷ above) (absent, refl) (record s { ancestors = real ∷ s.ancestors })
          (ap (λ a. real ∷ a) p) w in
      rw free (
        λ m. elim (there m) [
          | inl old ↦ inl old
          | inr new ↦ inr (real ∷ above, (absent, refl), new)
        ],
        λ o. elim o [
          | inl old ↦ back (inl old)
          | inr (below, q, new) ↦ back (inr (subst (λ b. S b w) q.1 new))
        ],
      )
]

pub with_entries-Gives :
    (r : Result (List DirEntry)) (each : List DirEntry → Found → Found) (S : List DirEntry → Set)
    (above : List Bytes)
    → ((es : List DirEntry) → r ≡ ok es → Gives (S es) above (each es))
    → Gives (λ w. (es : List DirEntry) × (r ≡ ok es) × S es w) above (with_entries r each)
unfolding with_entries
with_entries-Gives (err e) each S above gives s p w = (
  λ m. inl (subst (Memᴰ w) (sym (note_err-entries e s)) m),
  λ o. elim o [
    | inl old ↦ subst (Memᴰ w) (note_err-entries e s) old
    | inr (es, q, new) ↦ absurd (cc)
  ],
)
with_entries-Gives (ok es) each S above gives s p w =
    let (there, back) = gives es refl s p w in
    (
      λ m. elim (there m) [ inl old ↦ inl old | inr new ↦ inr (es, refl, new) ],
      λ o. elim o [
        | inl old ↦ back (inl old)
        | inr (fs, q, new) ↦ back (inr (subst (λ l. S l w) (listed_same fs q) new))
      ],
    )
  where
    listed_same : (fs : List DirEntry) → ◌≡◌ {A = Result (List DirEntry)} (ok es) (ok fs) → fs ≡ es
    listed_same fs q = cc

module _ (fs : FileSystem) where
  -- What one entry of a directory leads to.
  abbrev pub Leads :
      (Bytes → Bytes → List Bytes → Set) → Bytes → Bytes → List Bytes → DirEntry → Set
  Leads S path rel above e w =
      (is_child_dir fs e (join_path path e.name) ≡ true)
      × (below : List Bytes) × Enters (fs.eval_symlinks (join_path path e.name)) above below
      × S (join_path path e.name) (child_rel rel e.name) below w

  module _ (descend : Bytes → Bytes → Found → Found) (S : Bytes → Bytes → List Bytes → Set)
      (path rel : Bytes) (above : List Bytes)
      (gives : (p q : Bytes) (below : List Bytes) → Gives (S p q below) below (descend p q))
      (keeps : (p q : Bytes) → Keeps (descend p q)) where
    walk_child-Gives :
        (e : DirEntry)
        → Gives (Leads S path rel above e) above (walk_child fs every descend path rel e)
    unfolding walk_child
    walk_child-Gives e s p w = elim (Bool-cases (is_child_dir fs e (join_path path e.name))) [
      | inl dir ↦
          let (there, back) =
            enter-Gives (fs.eval_symlinks (join_path path e.name))
              (descend (join_path path e.name) (child_rel rel e.name))
              (S (join_path path e.name) (child_rel rel e.name)) above
              (λ below q. gives (join_path path e.name) (child_rel rel e.name) below) s p w in
          rw dir (
            λ m. elim (there m) [
              | inl old ↦ inl old
              | inr (below, r, new) ↦ inr (refl, below, r, new)
            ],
            λ o. elim o [
              | inl old ↦ back (inl old)
              | inr (q, below, r, new) ↦ back (inr (below, r, new))
            ],
          )
      | inr other ↦
          rw other
            (λ m. inl m, λ o. elim o [ inl old ↦ old | inr (q, below, r, new) ↦ absurd (cc) ])
    ]

    pub walk_children-Gives :
        (es : List DirEntry)
        → Gives
            (λ w. (e : DirEntry) × Memᴰ e es × Leads S path rel above e w)
            above
            (walk_children fs every descend path rel es)
    unfolding walk_children
    walk_children-Gives [] s p w =
        (λ m. inl m, λ o. elim o [ inl old ↦ old | inr (e, m, new) ↦ elim m [ ] ])
    walk_children-Gives (e ∷ es) s p w =
        let t = walk_child fs every descend path rel e s in
        let q : t.ancestors ≡ above = walk_child-Keeps fs every descend keeps path rel e s ∙ p in
        let (there, back) = walk_children-Gives es t q w in
        let (first, first_back) = walk_child-Gives e s p w in
        (
          λ m. elim (there m) [
            | inl early ↦ elim (first early) [
              | inl old ↦ inl old
              | inr new ↦ inr (e, Memᴰ.head refl, new)
            ]
            | inr (d, n, new) ↦ inr (d, Memᴰ.tail n, new)
          ],
          λ o. elim o [
            | inl old ↦ back (inl (first_back (inl old)))
            | inr (d, Memᴰ.head same, new) ↦
                back (inl (first_back (inr (subst (λ x. Leads S path rel above x w) same new))))
            | inr (d, Memᴰ.tail n, new) ↦ back (inr (d, n, new))
          ],
        )
