-- ===== src/Activity/Schedules.antt =====
-- The maps that goroutines fill, one write for each node, whatever order they run in.
use directory_exporter.Common.{
  All, ℕ, ◌+◌, member, Distinct, keys, select, select-none, select-some, write_all, get, Reordered,
  write_all-Reordered, Bool, false, List, [], ◌∷◌, ◌++◌, map, Option, some, Bytes, ◌≡◌, ◌⊎◌, inl,
  inr, arith, refl, sym, ap, ◌∙◌, subst, eqb, eqb_iff, Bool-cases, Option-cases,
}
use mathlib.Core.List.{append_cancel_right, reverse, reverse-append}
use directory_exporter.Types.{StreamNode}
use directory_exporter.Go.FilePath.{slash}
use directory_exporter.Activity.Nodes.{collector, distributor}
use directory_exporter.Activity.Keys.{key_of}
use directory_exporter.Activity.ScanAll.{started}

-- The key of a node with one of the two kinds.
abbrev pub IsTyped : StreamNode → Bytes → Type 0
IsTyped sn k = (k ≡ key_of sn ++ (slash ∷ collector)) ⊎ (k ≡ key_of sn ++ (slash ∷ distributor))

mixed : (x y : Bytes) → x ++ (slash ∷ collector) ≡ y ++ (slash ∷ distributor) → ⊥
mixed x y p =
    let q : reverse (slash ∷ collector) ++ reverse x ≡ reverse (slash ∷ distributor) ++ reverse y =
      sym (reverse-append x (slash ∷ collector))
      ∙ ap reverse p
      ∙ reverse-append y (slash ∷ distributor) in
    ground arith

pub typed_inj :
    (sn tn : StreamNode) (k : Bytes) → IsTyped sn k → IsTyped tn k → key_of sn ≡ key_of tn
typed_inj sn tn k (inl p) (inl q) = append_cancel_right _ _ (slash ∷ collector) (sym p ∙ q)
typed_inj sn tn k (inr p) (inr q) = append_cancel_right _ _ (slash ∷ distributor) (sym p ∙ q)
typed_inj sn tn k (inl p) (inr q) = absurd (mixed _ _ (sym p ∙ q))
typed_inj sn tn k (inr p) (inl q) = absurd (mixed _ _ (sym q ∙ p))

module _ {ℓ} {A : Type ℓ} (key : A → Bytes) where
  member-started :
      (done : ℕ → Bool) (n : ℕ) (k : Bytes) (xs : List A)
      → member k (map key xs) ≡ false
      → member k (map key (started done n xs)) ≡ false
  unfolding started member
  member-started done n k [] h = refl
  member-started done n k (x ∷ xs) h = ground (arith, member-started done (n + 1) k xs)

  pub Distinct-started :
      (done : ℕ → Bool) (n : ℕ) (xs : List A)
      → Distinct (map key xs)
      → Distinct (map key (started done n xs))
  unfolding started
  Distinct-started done n [] h = tt
  Distinct-started done n (x ∷ xs) (new, h) = elim (Bool-cases (done n)) [
    | inl over ↦ rw over tt
    | inr on ↦ rw on (member-started done (n + 1) _ xs new, Distinct-started done (n + 1) xs h)
  ]

  -- Where the context does not end, everything is started.
  pub started-all :
      (done : ℕ → Bool) (n : ℕ) (xs : List A) → ((k : ℕ) → done k ≡ false) → started done n xs ≡ xs
  unfolding started
  started-all done n [] never = refl
  started-all done n (x ∷ xs) never =
      rw (never n) (ap (λ ys. x ∷ ys) (started-all done (n + 1) xs never))

module _ {ℓ} {V : Type ℓ} (write : StreamNode → Option (Bytes × V))
    (typed : (sn : StreamNode) (w : Bytes × V) → write sn ≡ some w → IsTyped sn w.0) where
  select-new :
      (sn : StreamNode) (k : Bytes) (nodes : List StreamNode)
      → IsTyped sn k
      → member (key_of sn) (map key_of nodes) ≡ false
      → member k (keys (select write nodes)) ≡ false
  unfolding member
  select-new sn k [] t h = refl
  select-new sn k (m ∷ ms) t h = elim (Option-cases (write m)) [
    | inl none_written ↦
        rw (select-none write m ms none_written) (select-new sn k ms t (ground arith))
    | inr (w, p) ↦ elim (Bool-cases (eqb k w.0)) [
      | inl equal ↦
          let same_key : key_of sn ≡ key_of m =
            typed_inj sn m k t (subst (IsTyped m) (sym ((eqb_iff k w.0).0 equal)) (typed m w p)) in
          absurd (ground (arith, (eqb_iff (key_of sn) (key_of m)).1 same_key))
      | inr differ ↦ rw (select-some write m ms w p, differ) (select-new sn k ms t (ground arith))
    ]
  ]

  pub Distinct-select :
      (nodes : List StreamNode) → Distinct (map key_of nodes) → Distinct (keys (select write nodes))
  Distinct-select [] h = tt
  Distinct-select (m ∷ ms) (new, h) = elim (Option-cases (write m)) [
    | inl none_written ↦ rw (select-none write m ms none_written) (Distinct-select ms h)
    | inr (w, p) ↦
        rw (select-some write m ms w p)
          (select-new m w.0 ms (typed m w p) new, Distinct-select ms h)
  ]

  -- The writes of the nodes that are started may come in any order.
  pub any_order :
      (done : ℕ → Bool) (nodes : List StreamNode) {ws : List (Bytes × V)} (k : Bytes)
      → Distinct (map key_of nodes)
      → Reordered (Bytes × V) (select write (started done 0 nodes)) ws
      → get k (write_all ws []) ≡ get k (write_all (select write (started done 0 nodes)) [])
  any_order done nodes k h r =
      sym (write_all-Reordered k r (Distinct-select _ (Distinct-started key_of done 0 nodes h)))

-- What holds of all items holds of those that are started.
module _ {ℓ κ} {A : Type ℓ} (R : A → Type κ) where
  pub started-All : (done : ℕ → Bool) (n : ℕ) (xs : List A) → All R xs → All R (started done n xs)
  unfolding started
  started-All done n [] rs = tt
  started-All done n (x ∷ xs) (r, rs) = elim (Bool-cases (done n)) [
    | inl over ↦ rw over tt
    | inr on ↦ rw on (r, started-All done (n + 1) xs rs)
  ]
