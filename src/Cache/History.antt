-- ===== src/Cache/History.antt =====
-- The cache as the outcome of what was written to it, at every moment of every run.
use directory_exporter.Common.{
  ℕ, ◌<◌, ltb, not, is_empty, Bool-cases, ◌+◌, ◌%◌, ◌^◌, Bool, true, false, List, [], ◌∷◌, ◌≡◌, inl,
  inr, arith, refl,
}
use directory_exporter.Cache.{
  Maps, Cache, no_maps, new_cache, swap_maps, add_errors, mark_ready, incr_reload,
  set_watched_total,
}

-- Where the goroutine that scans is inside `SetBatch`; one is at a time, by the mutex of `ScanAll`.
pub data Place : Type 0 where
  outside : Place
  swapped : ℕ → Place
  errors_added : Place

pub record Writing : Type 0 where
  pub cache : Cache
  pub place : Place

-- One step of any goroutine that writes to the cache.
pub data WriteStep : Writing → Writing → Type 0 where
  swap_step :
      {c : Cache} (m : Maps) (n : ℕ)
      → WriteStep
          (record { cache = c; place = outside })
          (record { cache = swap_maps m c; place = swapped n })
  count_step :
      {c : Cache} {n : ℕ}
      → WriteStep
          (record { cache = c; place = swapped n })
          (record { cache = add_errors n c; place = errors_added })
  mark_step :
      {c : Cache}
      → WriteStep
          (record { cache = c; place = errors_added })
          (record { cache = mark_ready c; place = outside })
  reload_step :
      {c : Cache} {p : Place}
      → WriteStep (record { cache = c; place = p }) (record { cache = incr_reload c; place = p })
  watched_step :
      {c : Cache} {p : Place} (n : ℕ)
      → WriteStep
          (record { cache = c; place = p })
          (record { cache = set_watched_total n c; place = p })

pub data Writes : Writing → Writing → Type 0 where
  stay : {w : Writing} → Writes w w
  go : {w v u : Writing} → WriteStep w v → Writes v u → Writes w u

abbrev pub start : Writing
start = record { cache = new_cache; place = outside }

-- The maps of the last batch that was swapped in, with the batches before it; `no_maps` behind all.
abbrev pub batches : {w v : Writing} → Writes w v → List (Maps × ℕ) → List (Maps × ℕ)
batches stay past = past
batches (go (swap_step m n) r) past = batches r ((m, n) ∷ past)
batches (go count_step r) past = batches r past
batches (go mark_step r) past = batches r past
batches (go reload_step r) past = batches r past
batches (go (watched_step n) r) past = batches r past

abbrev pub reloads : {w v : Writing} → Writes w v → ℕ → ℕ
reloads stay k = k
reloads (go (swap_step m n) r) k = reloads r k
reloads (go count_step r) k = reloads r k
reloads (go mark_step r) k = reloads r k
reloads (go reload_step r) k = reloads r (k + 1)
reloads (go (watched_step n) r) k = reloads r k

abbrev pub total_errors : List (Maps × ℕ) → ℕ
total_errors [] = 0
total_errors ((m, n) ∷ past) = n + total_errors past

abbrev pub latest : List (Maps × ℕ) → Maps
latest [] = no_maps
latest ((m, n) ∷ past) = m

abbrev drop_first : List (Maps × ℕ) → List (Maps × ℕ)
drop_first [] = []
drop_first (b ∷ past) = past

-- The errors of a batch that was swapped in and is not errors_added yet.
abbrev pub uncounted : Place → ℕ
uncounted outside = 0
uncounted (swapped n) = n
uncounted errors_added = 0

-- The batches that are written to the end.
abbrev pub finished : Place → List (Maps × ℕ) → List (Maps × ℕ)
finished outside past = past
finished (swapped n) past = drop_first past
finished errors_added past = drop_first past

abbrev pub is_inside : Place → Bool
is_inside outside = false
is_inside (swapped n) = true
is_inside errors_added = true

-- What a cache holds after the batches `past` and `k` reloads: the maps of the last batch, the flag
-- where a batch was finished, the sum of the errors that are errors_added, and the reloads, both modulo
-- 2^64.
pub record Holds (past : List (Maps × ℕ)) (k : ℕ) (w : Writing) : Type 0 where
  pub maps : w.cache.maps ≡ latest past
  pub ready : w.cache.ready ≡ not (is_empty (finished w.place past))
  pub inside : is_inside w.place ≡ true → is_empty past ≡ false
  pub errors : (w.cache.scan_errors + uncounted w.place) % 2 ^ 64 ≡ total_errors past % 2 ^ 64
  pub below : w.cache.scan_errors < 2 ^ 64
  pub reload_total : w.cache.reload_total ≡ k % 2 ^ 64

start-Holds : Holds [] 0 start
start-Holds = record {
  maps = refl;
  ready = refl;
  inside = λ h. cc;
  errors = refl;
  below = omega arith;
  reload_total = refl;
}

swap-Holds :
    (past : List (Maps × ℕ)) (k : ℕ) (c : Cache) (m : Maps) (n : ℕ)
    → Holds past k (record { cache = c; place = outside })
    → Holds ((m, n) ∷ past) k (record { cache = swap_maps m c; place = swapped n })
unfolding swap_maps
swap-Holds past k c m n h = record {
  maps = refl;
  ready = h.ready;
  inside = λ i. refl;
  errors = omega (arith, h.errors);
  below = h.below;
  reload_total = h.reload_total;
}

count-Holds :
    (past : List (Maps × ℕ)) (k : ℕ) (c : Cache) (n : ℕ)
    → Holds past k (record { cache = c; place = swapped n })
    → Holds past k (record { cache = add_errors n c; place = errors_added })
unfolding add_errors
count-Holds past k c n h = elim (Bool-cases (ltb 0 n)) [
  | inl some_errors ↦ rw some_errors (record {
    maps = h.maps;
    ready = h.ready;
    inside = λ i. h.inside refl;
    errors = omega (arith, h.errors);
    below = omega arith;
    reload_total = h.reload_total;
  })
  | inr no_errors ↦ rw no_errors (record {
    maps = h.maps;
    ready = h.ready;
    inside = λ i. h.inside refl;
    errors = ground (arith, h.errors);
    below = h.below;
    reload_total = h.reload_total;
  })
]

mark-Holds :
    (past : List (Maps × ℕ)) (k : ℕ) (c : Cache)
    → Holds past k (record { cache = c; place = errors_added })
    → Holds past k (record { cache = mark_ready c; place = outside })
unfolding mark_ready
mark-Holds past k c h = record {
  maps = h.maps;
  ready = rw (h.inside refl) refl;
  inside = λ i. cc;
  errors = h.errors;
  below = h.below;
  reload_total = h.reload_total;
}

reload-Holds :
    (past : List (Maps × ℕ)) (k : ℕ) (c : Cache) (p : Place)
    → Holds past k (record { cache = c; place = p })
    → Holds past (k + 1) (record { cache = incr_reload c; place = p })
unfolding incr_reload
reload-Holds past k c p h = record {
  maps = h.maps;
  ready = h.ready;
  inside = h.inside;
  errors = h.errors;
  below = h.below;
  reload_total = omega (arith, h.reload_total);
}

watched-Holds :
    (past : List (Maps × ℕ)) (k : ℕ) (c : Cache) (p : Place) (n : ℕ)
    → Holds past k (record { cache = c; place = p })
    → Holds past k (record { cache = set_watched_total n c; place = p })
unfolding set_watched_total
watched-Holds past k c p n h = record {
  maps = h.maps;
  ready = h.ready;
  inside = h.inside;
  errors = h.errors;
  below = h.below;
  reload_total = h.reload_total;
}

run-Holds :
    (past : List (Maps × ℕ)) (k : ℕ) {w v : Writing} (r : Writes w v)
    → Holds past k w
    → Holds (batches r past) (reloads r k) v
run-Holds past k stay h = h
run-Holds past k (go (swap_step m n) r) h =
    run-Holds ((m, n) ∷ past) k r (swap-Holds past k _ m n h)
run-Holds past k (go count_step r) h = run-Holds past k r (count-Holds past k _ _ h)
run-Holds past k (go mark_step r) h = run-Holds past k r (mark-Holds past k _ h)
run-Holds past k (go reload_step r) h = run-Holds past (k + 1) r (reload-Holds past k _ _ h)
run-Holds past k (go (watched_step n) r) h = run-Holds past k r (watched-Holds past k _ _ n h)

-- At every moment of every interleaving of the goroutines that write to a new cache, it holds the
-- maps of the batch that was swapped in last, it is ready exactly where a batch has been finished,
-- and its counters are the sum of the errors of the batches and the number of reloads modulo 2^64,
-- the errors of the batch in progress left out until they are errors_added.
pub cache-Holds : {w : Writing} (r : Writes start w) → Holds (batches r []) (reloads r 0) w
cache-Holds r = run-Holds [] 0 r start-Holds
