-- ===== src/Server/Auth.antt =====
-- Who can make the exporter do anything.
use directory_exporter.Common.{
  if◌then◌else◌, Bool, ◌&&◌, Option-cases, some, none, true, false, ◌++◌, Bytes, codes, eqb,
  eqb_iff, is_empty, ◌≡◌, ◌≢◌, ◌↔◌, sym, ap, ◌∙◌, ◌⊎◌, inl, inr, arith, refl, Bool-cases,
}
use directory_exporter.Go.Strings.{trim_prefix, has_prefix, after_prefix}
use directory_exporter.Go.Find.{after_prefix-append, after_prefix-some}
use directory_exporter.Config.{Config}
use directory_exporter.Exporter.{Exporter, trigger_reload}
use directory_exporter.Metrics.Render.{Format}
use directory_exporter.Server.{
  Request, Response, secret_ok, handle_metrics, handle_reload, handle_ready, handle_healthy, on_get,
  is_get, serve,
}

abbrev pub bearer : Bytes
bearer = codes "Bearer "

-- The header is "Bearer " with the secret behind it, or the secret alone where that does not start
-- with "Bearer "; the secret is not empty.
abbrev pub HasSecret : Bytes → Bytes → Type 0
HasSecret secret authorization =
    (is_empty secret ≡ false)
    × ((authorization ≡ bearer ++ secret)
        ⊎ ((authorization ≡ secret) × (has_prefix authorization bearer ≡ false)))

-- A POST to /-/reload with the secret.
pub record IsAccepted (secret : Bytes) (r : Request) : Type 0 where
  pub method : r.method ≡ codes "POST"
  pub path : r.path ≡ codes "/-/reload"
  pub secret_given : HasSecret secret r.authorization

secret_ok-token :
    (secret authorization : Bytes)
    → (secret_ok secret authorization ≡ true)
      ↔ ((is_empty secret ≡ false) × (trim_prefix authorization bearer ≡ secret))
unfolding secret_ok
secret_ok-token secret authorization = (
  λ h. ground (arith, h, eqb_iff (trim_prefix authorization bearer) secret),
  λ h. ground (arith, h, eqb_iff (trim_prefix authorization bearer) secret),
)

trim_prefix_found :
    (s p rest : Bytes)
    → after_prefix s p ≡ some rest
    → (trim_prefix s p ≡ rest) × (has_prefix s p ≡ true)
unfolding trim_prefix has_prefix
trim_prefix_found s p rest h = (rw (h, trim_prefix) refl, rw (h, has_prefix) refl)

trim_prefix_absent :
    (s p : Bytes) → after_prefix s p ≡ none → (trim_prefix s p ≡ s) × (has_prefix s p ≡ false)
unfolding trim_prefix has_prefix
trim_prefix_absent s p h = (rw (h, trim_prefix) refl, rw (h, has_prefix) refl)

behind :
    (secret authorization : Bytes)
    → authorization ≡ bearer ++ secret
    → trim_prefix authorization bearer ≡ secret
behind secret a q =
    ap (λ r. trim_prefix r bearer) q
    ∙ (trim_prefix_found (bearer ++ secret) bearer secret (after_prefix-append bearer secret)).0

-- What is left of the header is the secret exactly where the header has it in one of the two forms.
token_forms :
    (secret authorization : Bytes)
    → (trim_prefix authorization bearer ≡ secret) ↔ (
        (authorization ≡ bearer ++ secret)
        ⊎ ((authorization ≡ secret) × (has_prefix authorization bearer ≡ false)))
token_forms secret a = elim (Option-cases (after_prefix a bearer)) [
  | inl p ↦
      let (whole, bare) = trim_prefix_absent a bearer p in
      (
        λ h. inr (sym whole ∙ h, bare),
        λ o. elim o [ inl q ↦ behind secret a q | inr (q, _) ↦ whole ∙ q ],
      )
  | inr (rest, p) ↦
      let (left, found) = trim_prefix_found a bearer rest p in
      (
        λ h. inl (after_prefix-some a bearer rest p ∙ ap (λ r. bearer ++ r) (sym left ∙ h)),
        λ o. elim o [ inl q ↦ behind secret a q | inr (_, bare) ↦ absurd (cc) ],
      )
]

secret_ok-HasSecret :
    (secret authorization : Bytes)
    → (secret_ok secret authorization ≡ true) ↔ HasSecret secret authorization
secret_ok-HasSecret secret a =
    let forms = token_forms secret a in
    let token = secret_ok-token secret a in
    (λ h. let (filled, t) = token.0 h in (filled, forms.0 t), λ h. token.1 (h.0, forms.1 h.1))

module _ (cfg : Config) (fmt : Format) where
  -- The outcome of a request that does nothing.
  abbrev pub IsIdle : Response × Exporter → Exporter → Type 0
  IsIdle o e = (o.0.status ≢ 202) × (o.1 ≡ e)

  on_get-IsIdle :
      (r : Request) (e : Exporter) (response : Response)
      → (response.status ≡ 202 → ⊥)
      → IsIdle (on_get cfg fmt r e response) e
  on_get-IsIdle r e response h = elim (Bool-cases (is_get cfg fmt r.method)) [
    | inl get ↦ rw get (h, refl)
    | inr other ↦ rw other (λ p. absurd (omega arith), refl)
  ]

  ready_status : (e : Exporter) → (handle_ready cfg fmt e).status ≡ 202 → ⊥
  unfolding handle_ready
  ready_status e h = ground arith

  metrics_status : (e : Exporter) → (handle_metrics cfg fmt e).status ≡ 202 → ⊥
  unfolding handle_metrics
  metrics_status e h = omega arith

  reload_outcome :
      (r : Request) (e : Exporter) (ok : Bool)
      → secret_ok cfg.reload_secret r.authorization ≡ ok
      → ((handle_reload cfg fmt r e).0.status ≡ (if ok then 202 else 401))
        × ((handle_reload cfg fmt r e).1 ≡ (if ok then trigger_reload e else e))
  unfolding handle_reload
  reload_outcome r e true h = rw (h, handle_reload) (refl, refl)
  reload_outcome r e false h = rw (h, handle_reload) (refl, refl)

  is_reload : Request → Bool
  is_reload r = eqb r.path (codes "/-/reload") && eqb r.method (codes "POST")

  reload_is :
      (r : Request) → is_reload r ≡ true → (r.path ≡ codes "/-/reload") × (r.method ≡ codes "POST")
  unfolding is_reload
  reload_is r h = (
    (eqb_iff r.path (codes "/-/reload")).0 (ground arith),
    (eqb_iff r.method (codes "POST")).0 (ground arith),
  )

  reload_differs :
      (r : Request) → is_reload r ≡ false → r.path ≡ codes "/-/reload" → r.method ≡ codes "POST" → ⊥
  unfolding is_reload
  reload_differs r h p m =
      let d = (eqb_iff r.path (codes "/-/reload")).1 p in
      let n = (eqb_iff r.method (codes "POST")).1 m in ground (arith, d, n)

  not_reload :
      (r : Request) (e : Exporter)
      → is_reload r ≡ false
      → (r.path ≢ codes "/-/reload")
        ⊎ (r.method ≢ codes "POST")
        ⊎ ((serve cfg fmt r e).0.status ≡ 401)
  not_reload r e h = elim (Bool-cases (eqb r.path (codes "/-/reload"))) [
    | inl d ↦ inr (inl (λ m. reload_differs r h ((eqb_iff r.path (codes "/-/reload")).0 d) m))
    | inr d ↦ inl (λ p. absurd (cc (d, (eqb_iff r.path (codes "/-/reload")).1 p)))
  ]

  serve_reload :
      (r : Request) (e : Exporter)
      → is_reload r ≡ true
      → serve cfg fmt r e ≡ handle_reload cfg fmt r e
  unfolding serve is_reload
  serve_reload r e h =
      let d : eqb r.path (codes "/-/reload") ≡ true = ground arith in
      let m : eqb r.method (codes "POST") ≡ true = ground arith in
      let q = (eqb_iff r.path (codes "/-/reload")).0 d in
      let a = ap (λ x. eqb x (codes "/metrics")) q in
      let b = ap (λ x. eqb x (codes "/-/healthy")) q in
      let c = ap (λ x. eqb x (codes "/-/ready")) q in rw (a, b, c, d, m, serve) refl

  serve_other : (r : Request) (e : Exporter) → is_reload r ≡ false → IsIdle (serve cfg fmt r e) e
  unfolding serve is_reload
  serve_other r e h = elim (Bool-cases (eqb r.path (codes "/metrics"))) [
    | inl a ↦ rw (a, serve) (on_get-IsIdle r e (handle_metrics cfg fmt e) (metrics_status e))
    | inr a ↦ elim (Bool-cases (eqb r.path (codes "/-/healthy"))) [
      | inl b ↦ rw (a, b, serve) (on_get-IsIdle r e (handle_healthy cfg fmt) (λ p. omega arith))
      | inr b ↦ elim (Bool-cases (eqb r.path (codes "/-/ready"))) [
        | inl c ↦ rw (a, b, c, serve) (on_get-IsIdle r e (handle_ready cfg fmt e) (ready_status e))
        | inr c ↦ elim (Bool-cases (eqb r.path (codes "/-/reload"))) [
          | inr d ↦ rw (a, b, c, d, serve) (λ p. absurd (omega arith), refl)
          | inl d ↦ elim (Bool-cases (eqb r.method (codes "POST"))) [
            | inr m ↦ rw (a, b, c, d, m, serve) (λ p. absurd (omega arith), refl)
            | inl m ↦ absurd (ground arith)
          ]
        ]
      ]
    ]
  ]

  -- A POST to /-/reload whose Authorization header is "Bearer " with the secret behind it, or the
  -- secret alone, without the scheme, where the secret does not start with "Bearer ", is answered with
  -- 202 and queues a reload, if the secret is not empty. Any other request leaves the exporter as it is
  -- and is not answered with 202, and if it is a POST to /-/reload, it is answered with 401.
  pub serve-IsAccepted :
      (r : Request) (e : Exporter)
      → (IsAccepted cfg.reload_secret r
          × ((serve cfg fmt r e).0.status ≡ 202)
          × ((serve cfg fmt r e).1 ≡ trigger_reload e))
        ⊎ ((¬ (IsAccepted cfg.reload_secret r))
            × ((serve cfg fmt r e).0.status ≢ 202)
            × ((serve cfg fmt r e).1 ≡ e)
            × ((r.path ≢ codes "/-/reload")
                ⊎ (r.method ≢ codes "POST")
                ⊎ ((serve cfg fmt r e).0.status ≡ 401)))
  serve-IsAccepted r e = elim (Bool-cases (is_reload r)) [
    | inr other ↦
        let (status, next) = serve_other r e other in
        inr (λ q. reload_differs r other q.path q.method, status, next, not_reload r e other)
    | inl reload ↦
        let same = serve_reload r e reload in
        let (path, method) = reload_is r reload in
        let forms = secret_ok-HasSecret cfg.reload_secret r.authorization in
        elim (Bool-cases (secret_ok cfg.reload_secret r.authorization)) [
          | inl good ↦
              let (status, next) = reload_outcome r e true good in
              inl (
                record { method = method; path = path; secret_given = forms.0 good },
                ap (λ o. o.0.status) same ∙ status,
                ap (λ o. o.1) same ∙ next,
              )
          | inr bad ↦
              let (status, next) = reload_outcome r e false bad in
              let refused = ap (λ o. o.0.status) same ∙ status in
              inr (
                λ q. absurd (cc (bad, forms.1 q.secret_given)),
                λ p. absurd (omega (arith, p, refused)),
                ap (λ o. o.1) same ∙ next,
                inr (inr refused),
              )
        ]
  ]
