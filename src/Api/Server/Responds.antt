-- ===== src/Api/Server/Responds.antt =====
-- What the handlers answer, on every path.
use suffren.Base.{
  ℕ, ◌⊎◌, ◌≡◌, refl, sym, subst, Option, none, some, Option-cases, inl, inr, String, [], ◌∷◌,
}
use suffren.Limiter.{Decision, check, status}
use suffren.Limiter.Environment.{Platform, Engine}
use suffren.Api.Writer.{Wrapped, write, set_header, http_error}
use suffren.Api.Writer.Recorded.{IsFresh, HasSent, first_header, write-HasSent}
use suffren.Api.Server.{
  Request, Codec, decode_window, decode_request, begin_json, check_decoded, status_decoded,
  answer_check, handle_check, answer_status, handle_status,
}

pub http_error-HasSent :
    (w : Wrapped) (text : String) (code : ℕ)
    → IsFresh w
    → HasSent (code ∷ []) code (http_error w text code)
unfolding http_error
http_error-HasSent w text code f = write-HasSent (code ∷ []) code _ _ (
    first_header (set_header (set_header w _ _) _ _) code
      (record { codes = f.codes; status = f.status; unsent = f.unsent }))

json-HasSent :
    (w : Wrapped) (text : String) → IsFresh w → HasSent (200 ∷ []) 200 (write (begin_json w) text)
unfolding begin_json
json-HasSent w text f = write-HasSent (200 ∷ []) 200 text _ (
    first_header (set_header w _ _) 200
      (record { codes = f.codes; status = f.status; unsent = f.unsent }))

module _ (go : Platform) {Body : Type 0} (codec : Codec Body go.Time go.Duration) where
  -- The request that a body stands for, with its window, if it is one.
  abbrev pub requested : Body → Option (Request × go.Duration)
  requested body = elim (codec.decode body) [
    | none ↦ none
    | some req ↦ elim (codec.parse_duration req.window) [
      | none ↦ none
      | some window ↦ some (req, window)
    ]
  ]

  -- The state and the code that answer a body, where `ask` is the call of the limiter: 400 and no
  -- call for a body that is no request, 503 if the call fails, and else 200, also for a denial.
  pub data Reply {S : Type 0} (ask : S → Request → go.Duration → S × Decision go.Time) (s : S)
      (body : Body) : S → ℕ → Type 0 where
    malformed : requested body ≡ none → Reply ask s body s 400
    unavailable :
        (req : Request) (window : go.Duration) (err : String)
        → requested body ≡ some (req, window)
        → (ask s req window).1.error ≡ some err
        → Reply ask s body (ask s req window).0 503
    decided :
        (req : Request) (window : go.Duration)
        → requested body ≡ some (req, window)
        → (ask s req window).1.error ≡ none
        → Reply ask s body (ask s req window).0 200

  decoded :
      (w : Wrapped) (body : Body)
      → IsFresh w
      → ((requested body ≡ none)
          × (refused : Wrapped) × (decode_request codec w body ≡ (refused, none))
          × HasSent (400 ∷ []) 400 refused)
        ⊎ ((req : Request) × (window : go.Duration) × (requested body ≡ some (req, window))
            × (decode_request codec w body ≡ (w, some (req, window))))
  unfolding decode_request
  decoded w body f = elim (Option-cases (codec.decode body)) [
    | inl e ↦ inl (
        rw (e, requested, decode_request)
          (refl, http_error w "Invalid JSON" 400, refl, http_error-HasSent w "Invalid JSON" 400 f))
    | inr (req, e) ↦ elim (Option-cases (codec.parse_duration req.window)) [
      | inl d ↦ inl (
          rw (e, d, requested, decode_request, decode_window)
            (
              refl,
              http_error w "Invalid window duration" 400,
              refl,
              http_error-HasSent w "Invalid window duration" 400 f,
            ))
      | inr (window, d) ↦
          inr
            (req, window, rw (e, d, requested) refl, rw (e, d, decode_request, decode_window) refl)
    ]
  ]

module _ (go : Platform) {S : Type 0} (engine : Engine S go.Time) {Body : Type 0}
    (codec : Codec Body go.Time go.Duration) where
  answer_check-HasSent :
      (w : Wrapped) (decision : Decision go.Time)
      → IsFresh w
      → ((err : String) × (decision.error ≡ some err)
          × HasSent (503 ∷ []) 503 (answer_check codec w decision))
        ⊎ ((decision.error ≡ none) × HasSent (200 ∷ []) 200 (answer_check codec w decision))
  unfolding answer_check
  answer_check-HasSent w decision f = elim (Option-cases decision.error) [
    | inl e ↦ inr (e, rw (e, answer_check) (json-HasSent w _ f))
    | inr (err, e) ↦
        inl
          (err, e, rw (e, answer_check) (http_error-HasSent w "Timeout, network unreachable" 503 f))
  ]

  abbrev pub ask_check : S → Request → go.Duration → S × Decision go.Time
  ask_check s req window =
      check go engine s req.identifier req.resource req.value_requested
        (record { limit = req.limit; window = window })

  -- What holds of the handler once the request is decoded holds of the handler.
  check-by :
      (s : S) (w : Wrapped) (body : Body) (code : ℕ) {d : Wrapped × Option (Request × go.Duration)}
      → decode_request codec w body ≡ d
      → Reply go codec ask_check s body (check_decoded go engine codec s d).0 code
      → HasSent (code ∷ []) code (check_decoded go engine codec s d).1
      → (n : ℕ) × Reply go codec ask_check s body (handle_check go engine codec s w body).0 n
        × HasSent (n ∷ []) n (handle_check go engine codec s w body).1
  unfolding handle_check
  check-by s w body code e reply sent =
      subst
        (λ r.
          (n : ℕ) × Reply go codec ask_check s body (check_decoded go engine codec s r).0 n
          × HasSent (n ∷ []) n (check_decoded go engine codec s r).1)
        (sym e) (code, reply, sent)

  -- On a writer to which nothing was sent, `handleCheck` sends one code: 400 for a body that is no
  -- request, with no call of the limiter; else `Check` is called once, and the code is 503 if its
  -- decision has an error, and 200 if not, whether or not it allows the request.
  pub handle_check-Reply :
      (s : S) (w : Wrapped) (body : Body)
      → IsFresh w
      → (code : ℕ) × Reply go codec ask_check s body (handle_check go engine codec s w body).0 code
        × HasSent (code ∷ []) code (handle_check go engine codec s w body).1
  unfolding handle_check
  handle_check-Reply s w body f = elim (decoded go codec w body f) [
    | inl (none_asked, refused, d, sent) ↦ check-by s w body 400 d (malformed none_asked) sent
    | inr (req, window, asked, d) ↦ elim (answer_check-HasSent w (ask_check s req window).1 f) [
      | inl (err, e, sent) ↦ check-by s w body 503 d (unavailable req window err asked e) sent
      | inr (e, sent) ↦ check-by s w body 200 d (decided req window asked e) sent
    ]
  ]

  answer_status-HasSent :
      (w : Wrapped) (decision : Decision go.Time)
      → IsFresh w
      → ((err : String) × (decision.error ≡ some err)
          × HasSent (503 ∷ []) 503 (answer_status codec w decision))
        ⊎ ((decision.error ≡ none) × HasSent (200 ∷ []) 200 (answer_status codec w decision))
  unfolding answer_status
  answer_status-HasSent w decision f = elim (Option-cases decision.error) [
    | inl e ↦ inr (e, rw (e, answer_status) (json-HasSent w _ f))
    | inr (err, e) ↦
        inl (err, e, rw (e, answer_status) (http_error-HasSent w "Ratelimite unavailable" 503 f))
  ]

  abbrev pub ask_status : S → Request → go.Duration → S × Decision go.Time
  ask_status s req window =
      status go engine s req.identifier req.resource (record { limit = req.limit; window = window })

  -- What holds of the handler once the request is decoded holds of the handler.
  status-by :
      (s : S) (w : Wrapped) (body : Body) (code : ℕ) {d : Wrapped × Option (Request × go.Duration)}
      → decode_request codec w body ≡ d
      → Reply go codec ask_status s body (status_decoded go engine codec s d).0 code
      → HasSent (code ∷ []) code (status_decoded go engine codec s d).1
      → (n : ℕ) × Reply go codec ask_status s body (handle_status go engine codec s w body).0 n
        × HasSent (n ∷ []) n (handle_status go engine codec s w body).1
  unfolding handle_status
  status-by s w body code e reply sent =
      subst
        (λ r.
          (n : ℕ) × Reply go codec ask_status s body (status_decoded go engine codec s r).0 n
          × HasSent (n ∷ []) n (status_decoded go engine codec s r).1)
        (sym e) (code, reply, sent)

  -- On a writer to which nothing was sent, `handleStatus` sends one code: 400 for a body that is no
  -- request, with no call of the limiter, and after a call of `Status` 503 or 200, with and without
  -- an error.
  pub handle_status-Reply :
      (s : S) (w : Wrapped) (body : Body)
      → IsFresh w
      → (code : ℕ) × Reply go codec ask_status s body
          (handle_status go engine codec s w body).0
          code
        × HasSent (code ∷ []) code (handle_status go engine codec s w body).1
  unfolding handle_status
  handle_status-Reply s w body f = elim (decoded go codec w body f) [
    | inl (none_asked, refused, d, sent) ↦ status-by s w body 400 d (malformed none_asked) sent
    | inr (req, window, asked, d) ↦ elim (answer_status-HasSent w (ask_status s req window).1 f) [
      | inl (err, e, sent) ↦ status-by s w body 503 d (unavailable req window err asked e) sent
      | inr (e, sent) ↦ status-by s w body 200 d (decided req window asked e) sent
    ]
  ]
