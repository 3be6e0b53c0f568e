-- ===== src/Watch/Exact.antt =====
-- What `discoverDirectories` finds, described without the state of the walk: a chain of listed
-- directories that leads from the base to a directory whose path matches.
mod Children
use mathlib.Core.List.{Memᴰ}
use mathlib.Core.List.Memᴰ
use directory_exporter.Common.{
  ℕ, zero, suc, ℤ, pos, pos_part, ltb_ℤ, Bool, true, false, List, [], Bool-cases, ◌∷◌, ◌++◌, Bytes,
  ◌≡◌, ◌⊎◌, ◌↔◌, arith, inl, inr, refl, sym, subst, ◌∙◌,
}
use directory_exporter.Types.{WatchEntry}
use directory_exporter.Go.Os.{FileInfo, Result-cases, ok, FileSystem, DirEntry}
use directory_exporter.Go.FilePath.{clean}
use directory_exporter.Watch.Pattern.{match_pattern}
use directory_exporter.Watch.Walk.{
  Found, walk_children, visit, walk, labels_at, discover_with, start_walk, discover_directories,
}
use directory_exporter.Watch.Ancestors.{walk-ancestors, visit-Keeps}
use directory_exporter.Watch.Genuine.{note_err-entries}
use directory_exporter.Watch.Idle.{HasNames, every}
use directory_exporter.Watch.Exact.Children.{
  Set, Gives, Leads, with_entries-Gives, walk_children-Gives,
}
use directory_exporter.Watch.Pruned.{discover_directories-unpruned}

module _ (label pattern : Bytes) (include : List Bytes) where
  -- The entry of a directory below the base whose path matches.
  abbrev pub Matched : Bytes → Bytes → ℕ → Set
  Matched path rel zero w = ⊥
  Matched path rel (suc depth) w =
      (match_pattern pattern rel include ≡ ok true)
      × (w ≡ record { abs_path = path; labels = labels_at label pattern rel (suc depth) })

  -- The pattern can be compared with a path, which the base is not.
  abbrev pub IsComparable : Bytes → ℕ → Type 0
  IsComparable rel zero = Unit
  IsComparable rel (suc depth) = (b : Bool) × (match_pattern pattern rel include ≡ ok b)

  visit-Gives :
      (path rel : Bytes) (depth : ℕ) (above : List Bytes)
      → Gives (Matched path rel depth) above (λ s. (visit label pattern include path rel depth s).0)
  visit-Gives path rel zero above s p w =
      unfold visit in (λ m. inl m, λ o. elim o [ inl old ↦ old | inr none ↦ absurd none ])
  visit-Gives path rel (suc depth) above s p w =
      elim (Result-cases (match_pattern pattern rel include)) [
        | inl (e, q) ↦
            let same : s.entries ≡ (visit label pattern include path rel (suc depth) s).0.entries =
              unfold visit in ground (arith, note_err-entries e s) in
            (
              λ m. inl (subst (Memᴰ w) (sym same) m),
              λ o. elim o [ inl old ↦ subst (Memᴰ w) same old | inr (yes_match, _) ↦ absurd (cc) ],
            )
        | inr (true, q) ↦
            let added : WatchEntry = record {
              abs_path = path;
              labels = labels_at label pattern rel (suc depth);
            } in
            let more : s.entries ++ added ∷ []
                ≡ (visit label pattern include path rel (suc depth) s).0.entries =
              unfold visit in ground arith in
            (
              λ m. elim (Memᴰ.append_cases s.entries (subst (Memᴰ w) (sym more) m)) [
                | inl old ↦ inl old
                | inr (Memᴰ.head same) ↦ inr (q, same)
                | inr (Memᴰ.tail none) ↦ elim none [ ]
              ],
              λ o. elim o [
                | inl old ↦ subst (Memᴰ w) more (Memᴰ.append_left (added ∷ []) old)
                | inr (_, same) ↦ subst (Memᴰ w) more (Memᴰ.append_right s.entries (Memᴰ.head same))
              ],
            )
        | inr (false, q) ↦
            let same : s.entries ≡ (visit label pattern include path rel (suc depth) s).0.entries =
              unfold visit in ground arith in
            (
              λ m. inl (subst (Memᴰ w) (sym same) m),
              λ o. elim o [ inl old ↦ subst (Memᴰ w) same old | inr (yes_match, _) ↦ absurd (cc) ],
            )
      ]

  visit_on :
      (path rel : Bytes) (depth : ℕ) (s : Found)
      → (IsComparable rel depth → (visit label pattern include path rel depth s).1 ≡ true)
        × ((visit label pattern include path rel depth s).1 ≡ true → IsComparable rel depth)
  unfolding visit
  visit_on path rel zero s = (λ c. refl, λ h. tt)
  visit_on path rel (suc depth) s = elim (Result-cases (match_pattern pattern rel include)) [
    | inl (e, q) ↦ (λ c. cc c.1, λ h. absurd (ground arith))
    | inr (b, q) ↦ (λ c. ground arith, λ h. (b, q))
  ]

  -- From a directory at a depth, with `left` levels left: its own entry, or one that an entry of its
  -- list leads to, where the pattern can be compared with its path.
  unfoldable pub Leading : FileSystem → ℕ → Bytes → Bytes → ℕ → List Bytes → WatchEntry → Type 0
  Leading fs zero path rel depth above w = Matched path rel depth w
  Leading fs (suc left) path rel depth above w =
      Matched path rel depth w
      ⊎ (IsComparable rel depth
          × (es : List DirEntry) × (fs.read_dir path ≡ ok es)
          × (e : DirEntry) × Memᴰ e es
          × Leads fs (λ p q below v. Leading fs left p q (suc depth) below v) path rel above e w)

  module _ (fs : FileSystem) where
    walk-Gives :
        (left : ℕ) (path rel : Bytes) (depth : ℕ) (above : List Bytes)
        → Gives
            (Leading fs left path rel depth above)
            above
            (walk fs label pattern include every left path rel depth)
    unfolding walk Leading
    walk-Gives zero path rel depth above s p w = visit-Gives path rel depth above s p w
    walk-Gives (suc left) path rel depth above s p w =
        let descend =
          λ (q r : Bytes) (u : Found). walk fs label pattern include every left q r (suc depth) u in
        let S = λ (q r : Bytes) (below : List Bytes) (v : WatchEntry).
          Leading fs left q r (suc depth) below v in
        let t = (visit label pattern include path rel depth s).0 in
        let (seen, seen_back) = visit-Gives path rel depth above s p w in
        let (on, off) = visit_on path rel depth s in
        let (there, back) =
          with_entries-Gives (fs.read_dir path) (walk_children fs every descend path rel)
            (λ es v. (e : DirEntry) × Memᴰ e es × Leads fs S path rel above e v) above
            (λ es listed.
              walk_children-Gives fs descend S path rel above
                (λ q r below. walk-Gives left q r (suc depth) below)
                (λ q r u. walk-ancestors fs label pattern include every left q r (suc depth) u) es)
            t (visit-Keeps fs label pattern include every path rel depth s ∙ p) w in
        elim (Bool-cases (visit label pattern include path rel depth s).1) [
          | inl goes_on ↦ rw goes_on (
            λ m. elim (there m) [
              | inl early ↦ elim (seen early) [ inl old ↦ inl old | inr here ↦ inr (inl here) ]
              | inr (es, listed, (e, n, leads)) ↦ inr (inr (off goes_on, es, listed, e, n, leads))
            ],
            λ o. elim o [
              | inl old ↦ back (inl (seen_back (inl old)))
              | inr (inl here) ↦ back (inl (seen_back (inr here)))
              | inr (inr (_, es, listed, e, n, leads)) ↦ back (inr (es, listed, (e, n, leads)))
            ],
          )
          | inr stops ↦ rw stops (
            λ m. elim (seen m) [ inl old ↦ inl old | inr here ↦ inr (inl here) ],
            λ o. elim o [
              | inl old ↦ seen_back (inl old)
              | inr (inl here) ↦ seen_back (inr here)
              | inr (inr (comparable, es, listed, e, n, leads)) ↦ absurd (cc (on comparable))
            ],
          )
        ]

    -- The base is a directory, the depth is not negative, and an entry is led to from the base.
    abbrev pub IsDiscovered : Bytes → ℤ → WatchEntry → Type 0
    IsDiscovered base_path max_depth w =
        let base = clean base_path in
        (info : FileInfo) × (fs.stat base ≡ ok info)
        × (info.is_dir ≡ true)
        × (ltb_ℤ max_depth (pos 0) ≡ false)
        × Leading fs (pos_part max_depth) base [] 0 (start_walk fs base).ancestors w

    discover_with_exact :
        (base_path : Bytes) (max_depth : ℤ) (w : WatchEntry)
        → Memᴰ w (discover_with fs label pattern include every base_path max_depth).0
          ↔ IsDiscovered base_path max_depth w
    unfolding discover_with
    discover_with_exact base_path max_depth w = elim (Result-cases (fs.stat (clean base_path))) [
      | inl (e, p) ↦
          rw (p, discover_with) (λ m. elim m [ ], λ (info, q, dir, deep, leads). absurd (cc))
      | inr (info, p) ↦ elim (Bool-cases info.is_dir) [
        | inr file ↦
            rw (p, discover_with, file)
              (λ m. elim m [ ], λ (other, q, dir, deep, leads). absurd (ground arith))
        | inl dir ↦ elim (Bool-cases (ltb_ℤ max_depth (pos 0))) [
          | inl below ↦
              rw (p, discover_with, dir, below)
                (λ m. elim m [ ], λ (other, q, _, deep, leads). absurd (cc))
          | inr deep ↦
              let (there, back) =
                walk-Gives (pos_part max_depth) (clean base_path) [] 0
                  (start_walk fs (clean base_path)).ancestors (start_walk fs (clean base_path)) refl
                  w in
              rw (p, discover_with, dir, deep)
                (
                  λ m. elim (there m) [
                    | inl none ↦ elim none [ ]
                    | inr leads ↦ (
                      record { is_dir = true; mod_time = info.mod_time },
                      refl,
                      refl,
                      refl,
                      leads,
                    )
                  ],
                  λ (other, q, _, _, leads). back (inr leads),
                )
        ]
      ]
    ]

-- `discoverDirectories` returns exactly the entries of which `IsDiscovered` says so: where directories
-- list proper names, an entry is found if and only if the base is a directory, the depth is not
-- negative, and a chain of listed child directories, no one of which has the real path of one above
-- it, leads from the base down to a matching directory, each on the chain with a comparable path.
pub discover_directories_exact :
    (fs : FileSystem) (label pattern : Bytes) (include : List Bytes) (base_path : Bytes)
    (max_depth : ℤ) (w : WatchEntry)
    → HasNames fs
    → Memᴰ w (discover_directories fs label pattern include base_path max_depth).0
      ↔ IsDiscovered label pattern include fs base_path max_depth w
discover_directories_exact fs label pattern include base_path max_depth w named =
    subst (λ ws. Memᴰ w ws ↔ IsDiscovered label pattern include fs base_path max_depth w)
      (sym (discover_directories-unpruned fs label pattern include base_path max_depth named))
      (discover_with_exact label pattern include fs base_path max_depth w)
