-- ===== src/Api/Routes.antt =====
-- internal/api/server.go: the routes of `NewServer` and the handler that `Start` serves. The mux of
-- net/http is a parameter.
pub mod Served
use suffren.Base.{ℕ, Bool, String, if◌then◌else◌}
use suffren.Limiter.Environment.{Platform, Engine}
use suffren.Api.Writer.{ResponseWriter, Wrapped, Request, Log, logging_middleware}
use suffren.Api.Server.{Codec, handle_check, handle_status}

-- Whether a request matches a pattern, and the answer to one that matches none.
pub record Mux (Body : Type 0) : Type 0 where
  pub matches : String → Request Body → Bool
  pub refuse : Wrapped → Request Body → Wrapped

module _ (go : Platform) {S : Type 0} (engine : Engine S go.Time) {Body : Type 0}
    (codec : Codec Body go.Time go.Duration) (mux : Mux Body) where
  -- The router: no request matches both patterns, since their paths differ.
  unfoldable pub router : S → Wrapped → Request Body → S × Wrapped
  unfolding handle_check handle_status
  router s w r =
      if mux.matches "POST /check" r
      then handle_check go engine codec s w r.body
      else (if mux.matches "POST /status" r
          then handle_status go engine codec s w r.body
          else (s, mux.refuse w r))

  -- The server of `Start`, at one request.
  unfoldable pub serve : S → ResponseWriter → Request Body → S × ResponseWriter × Log
  unfolding logging_middleware router
  serve s w r = logging_middleware router s w r
