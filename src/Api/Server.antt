-- ===== src/Api/Server.antt =====
-- internal/api/server.go: the two handlers, over the limiter. JSON, the parsing of a duration and the
-- text of a time are parameters.
pub mod Responds
use suffren.Base.{ℕ, Bool, Option, none, some, String}
use suffren.Limiter.{Decision, Rule, check, status}
use suffren.Limiter.Environment.{Platform, Engine}
use suffren.Api.Writer.{Wrapped, set_header, write_header, write, http_error}

pub record Request : Type 0 where
  pub identifier : String
  pub resource : String
  pub limit : ℕ
  pub window : String
  pub value_requested : ℕ

pub record CheckResponse : Type 0 where
  pub allowed : Bool
  pub current : ℕ
  pub limit : ℕ
  pub remaining : ℕ
  pub reset_at : String

pub record StatusResponse : Type 0 where
  pub current : ℕ
  pub limit : ℕ
  pub remaining : ℕ
  pub reset_at : String

-- `json.Decoder.Decode` of a body into a request, `time.ParseDuration`, `Time.Format(time.RFC3339)`
-- (of the zero time, if there is none), and what `json.Encoder.Encode` writes.
pub record Codec (Body Time Duration : Type 0) : Type 0 where
  pub decode : Body → Option Request
  pub parse_duration : String → Option Duration
  pub format_time : Option Time → String
  pub encode_check : CheckResponse → String
  pub encode_status : StatusResponse → String

-- The header of a JSON answer, and its code.
unfoldable pub begin_json : Wrapped → Wrapped
unfolding set_header write_header
begin_json w = write_header (set_header w "Content-Type" "application/json") 200

module _ {Time Duration Body : Type 0} (codec : Codec Body Time Duration) where
  open codec use {decode, parse_duration, format_time, encode_check, encode_status}

  unfoldable pub decode_window : Wrapped → Request → Wrapped × Option (Request × Duration)
  unfolding http_error
  decode_window w req = elim (parse_duration req.window) [
    | none ↦ (http_error w "Invalid window duration" 400, none)
    | some window ↦ (w, some (req, window))
  ]

  unfoldable pub decode_request : Wrapped → Body → Wrapped × Option (Request × Duration)
  unfolding decode_window http_error
  decode_request w body = elim (decode body) [
    | none ↦ (http_error w "Invalid JSON" 400, none)
    | some req ↦ decode_window w req
  ]

  unfoldable pub answer_check : Wrapped → Decision Time → Wrapped
  unfolding begin_json http_error write
  answer_check w decision = elim decision.error [
    | some err ↦ http_error w "Timeout, network unreachable" 503
    | none ↦ write (begin_json w) (
        encode_check (record {
          allowed = decision.allowed;
          current = decision.current;
          limit = decision.limit;
          remaining = decision.remaining;
          reset_at = format_time decision.reset_at;
        }))
  ]

  unfoldable pub answer_status : Wrapped → Decision Time → Wrapped
  unfolding begin_json http_error write
  answer_status w decision = elim decision.error [
    | some err ↦ http_error w "Ratelimite unavailable" 503
    | none ↦ write (begin_json w) (
        encode_status (record {
          current = decision.current;
          limit = decision.limit;
          remaining = decision.remaining;
          reset_at = format_time decision.reset_at;
        }))
  ]

module _ (go : Platform) {S : Type 0} (engine : Engine S go.Time) {Body : Type 0}
    (codec : Codec Body go.Time go.Duration) where
  -- The handler once the request is decoded, or refused.
  unfoldable pub check_decoded : S → Wrapped × Option (Request × go.Duration) → S × Wrapped
  unfolding check answer_check
  check_decoded s (w, none) = (s, w)
  check_decoded s (w, some (req, window)) =
      let (s', decision) =
        check go engine s req.identifier req.resource req.value_requested
          (record { limit = req.limit; window = window }) in
      (s', answer_check codec w decision)

  unfoldable pub handle_check : S → Wrapped → Body → S × Wrapped
  unfolding decode_request check_decoded
  handle_check s w body = check_decoded s (decode_request codec w body)

  -- The handler once the request is decoded, or refused.
  unfoldable pub status_decoded : S → Wrapped × Option (Request × go.Duration) → S × Wrapped
  unfolding status answer_status
  status_decoded s (w, none) = (s, w)
  status_decoded s (w, some (req, window)) =
      let (s', decision) =
        status go engine s req.identifier req.resource
          (record { limit = req.limit; window = window }) in
      (s', answer_status codec w decision)

  unfoldable pub handle_status : S → Wrapped → Body → S × Wrapped
  unfolding decode_request status_decoded
  handle_status s w body = status_decoded s (decode_request codec w body)
