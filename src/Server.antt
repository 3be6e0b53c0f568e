-- ===== src/Server.antt =====
-- server.go: the handlers behind the four patterns of `NewMux`, with the response of each. The
-- patterns are matched as `ServeMux` does for a path that is clean: a GET pattern also takes HEAD, a
-- path that is known with other methods only gives 405.
pub mod Auth
pub mod Probes
pub mod Lifecycle
pub mod Scrape
pub mod ScrapeNodes
pub mod Fresh
mod Tests
mod NodeTests
use directory_exporter.Common.{
  ℕ, Bool, not, ◌&&◌, ◌||◌, [], ◌∷◌, ◌++◌, Bytes, codes, eqb, if◌then◌else◌, is_empty,
}
use directory_exporter.Go.Strings.{trim_prefix}
use directory_exporter.Config.{Config}
use directory_exporter.Cache.{snapshot}
use directory_exporter.Exporter.{Exporter, trigger_reload}
use directory_exporter.Metrics.Render.{Format, render_metrics}

-- `authorization` is the value of that header, "" where there is none.
pub record Request : Type 0 where
  pub method : Bytes
  pub path : Bytes
  pub authorization : Bytes

pub record Response : Type 0 where
  pub status : ℕ
  pub content_type : Bytes
  pub body : Bytes

-- A body without a content type: the server detects one from the text.
abbrev pub respond : ℕ → Bytes → Response
respond status body = record {
  status = status;
  content_type = codes "text/plain; charset=utf-8";
  body = body;
}

-- `http.Error`, which puts a line end behind its text.
abbrev pub http_error : ℕ → Bytes → Response
http_error status text = respond status (text ++ 10 ∷ [])

abbrev pub prometheus_content_type : Bytes
prometheus_content_type = codes "text/plain; version=0.0.4; charset=utf-8"

-- The token is not empty and is the secret; `ConstantTimeCompare` is 1 exactly for equal bytes.
unfoldable pub secret_ok : Bytes → Bytes → Bool
secret_ok secret authorization =
    let token = trim_prefix authorization (codes "Bearer ") in
    not (is_empty token) && eqb token secret

module _ (cfg : Config) (fmt : Format) where
  unfoldable pub handle_metrics : Exporter → Response
  handle_metrics e = record {
    status = 200;
    content_type = prometheus_content_type;
    body = render_metrics fmt (snapshot e.cache e.cache e.cache e.cache e.cache);
  }

  unfoldable pub handle_reload : Request → Exporter → Response × Exporter
  unfolding secret_ok
  handle_reload r e =
      if secret_ok cfg.reload_secret r.authorization
      then (respond 202 (codes "Reload queued" ++ 10 ∷ []), trigger_reload e)
      else (http_error 401 (codes "Unauthorized" ++ 10 ∷ []), e)

  abbrev pub handle_healthy : Response
  handle_healthy = respond 200 (codes "OK" ++ 10 ∷ [])

  -- The dash in the text of the source is U+2014.
  unfoldable pub handle_ready : Exporter → Response
  handle_ready e =
      if not e.cache.ready
      then http_error 503 (
          codes "Service Unavailable "
          ++ (226 ∷ 128 ∷ 148 ∷ (codes " cache warming up" ++ 10 ∷ [])))
      else respond 200 (codes "Ready" ++ 10 ∷ [])

  abbrev pub is_get : Bytes → Bool
  is_get method = eqb method (codes "GET") || eqb method (codes "HEAD")

  abbrev pub not_allowed : Response
  not_allowed = http_error 405 (codes "Method Not Allowed")

  -- A path that `GET` is registered for.
  abbrev pub on_get : Request → Exporter → Response → Response × Exporter
  on_get r e response = if is_get r.method then (response, e) else (not_allowed, e)

  unfoldable pub serve : Request → Exporter → Response × Exporter
  unfolding handle_metrics handle_reload handle_ready
  serve r e =
      if eqb r.path (codes "/metrics")
      then on_get r e (handle_metrics e)
      else if eqb r.path (codes "/-/healthy")
      then on_get r e handle_healthy
      else if eqb r.path (codes "/-/ready")
      then on_get r e (handle_ready e)
      else if eqb r.path (codes "/-/reload")
      then if eqb r.method (codes "POST") then handle_reload r e else (not_allowed, e)
      else (http_error 404 (codes "404 page not found"), e)
