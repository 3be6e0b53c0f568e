-- ===== src/Activity/Latest.antt =====
-- What `ScanDistributorActivity` finds in a trace file.
use mathlib.Core.List.{Memᴰ}
use directory_exporter.Common.{
  ltb_ℤ, ◌≤ℤ◌, List, [], ◌∷◌, Option, none, some, Bytes, ◌≡◌, inl, inr, arith, refl, select,
  select-none, select-some, All, Option-cases, Bool-cases,
}
use directory_exporter.Go.Os.{FileSystem}
use directory_exporter.Activity.Delay.{Instant}
use directory_exporter.Activity.Distributor.{Clock, later, parse_distributor_line, latest_in}

-- An event of the list that no other is later than; nothing where the list is empty.
abbrev pub IsLatest : List (Instant × Bytes) → Option (Instant × Bytes) → Type 0
IsLatest es none = es ≡ []
IsLatest es (some e) = Memᴰ e es × All (λ u. u.0 ≤ℤ e.0) es

fold_later : List (Instant × Bytes) → Option (Instant × Bytes) → Option (Instant × Bytes)
fold_later [] best = best
fold_later (e ∷ es) best = fold_later es (later best e)

fold_later-some :
    (b : Instant × Bytes) (es : List (Instant × Bytes))
    → (e : Instant × Bytes) × (fold_later es (some b) ≡ some e)
      × Memᴰ e (b ∷ es)
      × (b.0 ≤ℤ e.0)
      × All (λ u. u.0 ≤ℤ e.0) es
unfolding fold_later
fold_later-some b [] = (b, refl, Memᴰ.head refl, omega arith, tt)
fold_later-some b (c ∷ es) = elim (Bool-cases (ltb_ℤ b.0 c.0)) [
  | inl newer ↦
      let (e, p, m, up, rest) = fold_later-some c es in
      (e, rw newer p, Memᴰ.tail m, ground arith, (up, rest))
  | inr older ↦
      let (e, p, m, up, rest) = fold_later-some b es in
      (
        e,
        rw older p,
        elim m [ Memᴰ.head q ↦ Memᴰ.head q | Memᴰ.tail n ↦ Memᴰ.tail (Memᴰ.tail n) ],
        up,
        (ground arith, rest),
      )
]

fold_later-IsLatest : (es : List (Instant × Bytes)) → IsLatest es (fold_later es none)
unfolding fold_later
fold_later-IsLatest [] = refl
fold_later-IsLatest (b ∷ es) =
    let (e, p, m, up, rest) = fold_later-some b es in rw p (m, (up, rest))

module _ (fs : FileSystem) (clock : Clock) where
  -- The events of a node in the lines of a file.
  abbrev pub events : Bytes → List Bytes → List (Instant × Bytes)
  events node = select (λ line. parse_distributor_line fs clock line node)

  latest_in-fold :
      (node : Bytes) (lines : List Bytes) (best : Option (Instant × Bytes))
      → latest_in fs clock node lines best ≡ fold_later (events node lines) best
  unfolding latest_in fold_later
  latest_in-fold node [] best = refl
  latest_in-fold node (l ∷ ls) best = elim (Option-cases (parse_distributor_line fs clock l node)) [
    | inl p ↦
        rw (p, latest_in, select-none (λ line. parse_distributor_line fs clock line node) l ls p)
          (latest_in-fold node ls best)
    | inr (e, p) ↦
        rw (p, latest_in, select-some (λ line. parse_distributor_line fs clock line node) l ls e p)
          (latest_in-fold node ls (later best e))
  ]

  -- Of the lines of a trace file, the loop keeps an event of the node that no event of the node in
  -- the file is later than, and nothing exactly where the file has no event of the node.
  pub latest_in-IsLatest :
      (node : Bytes) (lines : List Bytes)
      → IsLatest (events node lines) (latest_in fs clock node lines none)
  latest_in-IsLatest node lines =
      rw (latest_in-fold node lines none) (fold_later-IsLatest (events node lines))
