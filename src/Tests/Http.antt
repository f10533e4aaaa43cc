-- ===== src/Tests/Http.antt =====
-- The results about the HTTP handlers, over the clock and the engine of the limiter's tests.
use text.Mathlib.Text.{◌==◌ as str_eq}
use suffren.Base.{◌&&◌, ℕ, ◌≡◌, refl, false, none, some, String, List, [], ◌∷◌, if◌then◌else◌}
use suffren.Api.Writer.{http_error, ResponseWriter, Wrapped, Request, logging_middleware}
use suffren.Api.Writer.Recorded.{
  Call, sets, writes_header, writes, IsFresh, calling, sent_codes, first_code,
  logging_middleware-records,
}
use suffren.Api.Server.{Codec, handle_check}
use suffren.Api.Server.Responds.{http_error-HasSent}
use suffren.Api.Routes.{Mux, serve}
use suffren.Api.Routes.Served.{Answer, IsMux, serve-answers}
use suffren.Tests.Limits.{go, engine}

abbrev client : ResponseWriter
client = record { headers = []; codes = []; body = [] }

-- A handler that sends 503 and then tries 200.
abbrev stubborn : ℕ → Request String → ℕ × List Call
stubborn s r = (s, sets "A" "b" ∷ writes_header 503 ∷ writes_header 200 ∷ writes "x" ∷ [])

abbrev post : Request String
post = record { method = "POST"; path = "/check"; remote_addr = "c:1"; body = "" }

logging_middleware-records_example :
    let (s', seen, log) = logging_middleware (calling stubborn) 0 client post in
    (seen.codes ≡ sent_codes (stubborn 0 post).1) × (log.status ≡ first_code (stubborn 0 post).1)
logging_middleware-records_example = logging_middleware-records stubborn 0 client post refl

-- A body is a request for 1 under a limit of 5 in ten seconds, or not JSON.
abbrev codec : Codec String ℕ (ℕ × ℕ)
codec = record {
  decode = λ body.
      if str_eq body "ok"
      then some (record {
        identifier = "user";
        resource = "api";
        limit = 5;
        window = "10s";
        value_requested = 1;
      })
      else none;
  parse_duration = λ text. some (10, 0);
  format_time = λ t. "";
  encode_check = λ r. if r.allowed then "yes" else "no";
  encode_status = λ r. "";
}

abbrev fresh : Wrapped
fresh = record { inner = client; status = 200; wrote_header = false }

fresh-IsFresh : IsFresh fresh
fresh-IsFresh = record { codes = refl; status = refl; unsent = refl }

answers_yes : (handle_check go engine codec (22, 3) fresh "ok").1.inner.body ≡ "yes" ∷ []
unfolding handle_check
answers_yes = refl

abbrev mux : Mux String
mux = record {
  matches = λ pattern r.
      str_eq r.method "POST"
      && (if str_eq pattern "POST /check" then str_eq r.path "/check" else str_eq r.path "/status");
  refuse = λ w r. http_error w "404 page not found" 404;
}

mux-IsMux : IsMux go engine codec mux
mux-IsMux = record { refuses = λ w r f. (404, http_error-HasSent w "404 page not found" 404 f) }

abbrev post_ok : Request String
post_ok = record { method = "POST"; path = "/check"; remote_addr = "c:1"; body = "ok" }

serve-answers_example :
    let (s', seen, log) = serve go engine codec mux (22, 3) client post_ok in
    (code : ℕ) × Answer go engine codec mux (22, 3) post_ok s' code
    × (seen.codes ≡ code ∷ [])
    × (log.status ≡ code)
serve-answers_example = serve-answers go engine codec mux (22, 3) client post_ok mux-IsMux refl

serves_yes : (serve go engine codec mux (22, 3) client post_ok).1.body ≡ "yes" ∷ []
unfolding serve
serves_yes = refl
