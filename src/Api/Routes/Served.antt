-- ===== src/Api/Routes/Served.antt =====
-- What the server answers and logs for any request.
use suffren.Base.{ℕ, ◌≡◌, refl, sym, subst, true, false, Bool-cases, inl, inr, [], ◌∷◌}
use suffren.Limiter.Environment.{Platform, Engine}
use suffren.Api.Writer.{ResponseWriter, Wrapped, Request, wrap_response_writer}
use suffren.Api.Writer.Recorded.{IsFresh, HasSent}
use suffren.Api.Server.{Codec, handle_check, handle_status}
use suffren.Api.Server.Responds.{
  Reply, ask_check, ask_status, handle_check-Reply, handle_status-Reply,
}
use suffren.Api.Routes.{Mux, router, serve}

module _ (go : Platform) {S : Type 0} (engine : Engine S go.Time) {Body : Type 0}
    (codec : Codec Body go.Time go.Duration) (mux : Mux Body) where
  -- What net/http says of the mux: a request that matches no pattern is answered with one code.
  pub record IsMux : Type 0 where
    pub refuses :
        (w : Wrapped) (r : Request Body)
        → IsFresh w
        → (code : ℕ) × HasSent (code ∷ []) code (mux.refuse w r)

  -- The state and the code that answer a request.
  pub data Answer (s : S) (r : Request Body) : S → ℕ → Type 0 where
    checked :
        {s' : S} {code : ℕ}
        → mux.matches "POST /check" r ≡ true
        → Reply go codec (ask_check go engine codec) s r.body s' code
        → Answer s r s' code
    reported :
        {s' : S} {code : ℕ}
        → mux.matches "POST /check" r ≡ false
        → mux.matches "POST /status" r ≡ true
        → Reply go codec (ask_status go engine codec) s r.body s' code
        → Answer s r s' code
    unrouted :
        {code : ℕ}
        → mux.matches "POST /check" r ≡ false
        → mux.matches "POST /status" r ≡ false
        → Answer s r s code

  abbrev Answered : S → Request Body → S × Wrapped → Type 0
  Answered s r (s', w) = (code : ℕ) × Answer s r s' code × HasSent (code ∷ []) code w

  check_route :
      (s : S) (w : Wrapped) (r : Request Body)
      → mux.matches "POST /check" r ≡ true
      → router go engine codec mux s w r ≡ handle_check go engine codec s w r.body
  unfolding router
  check_route s w r e = rw (e, router) refl

  status_route :
      (s : S) (w : Wrapped) (r : Request Body)
      → mux.matches "POST /check" r ≡ false
      → mux.matches "POST /status" r ≡ true
      → router go engine codec mux s w r ≡ handle_status go engine codec s w r.body
  unfolding router
  status_route s w r e d = rw (e, d, router) refl

  no_route :
      (s : S) (w : Wrapped) (r : Request Body)
      → mux.matches "POST /check" r ≡ false
      → mux.matches "POST /status" r ≡ false
      → router go engine codec mux s w r ≡ (s, mux.refuse w r)
  unfolding router
  no_route s w r e d = rw (e, d, router) refl

  router_answers :
      (s : S) (w : Wrapped) (r : Request Body)
      → IsMux
      → IsFresh w
      → Answered s r (router go engine codec mux s w r)
  router_answers s w r laws f = elim (Bool-cases (mux.matches "POST /check" r)) [
    | inl t ↦
        let (code, reply, sent) = handle_check-Reply go engine codec s w r.body f in
        subst (Answered s r) (sym (check_route s w r t)) (code, checked t reply, sent)
    | inr t ↦ elim (Bool-cases (mux.matches "POST /status" r)) [
      | inl u ↦
          let (code, reply, sent) = handle_status-Reply go engine codec s w r.body f in
          subst (Answered s r) (sym (status_route s w r t u)) (code, reported t u reply, sent)
      | inr u ↦
          let (code, sent) = laws.refuses w r f in
          subst (Answered s r) (sym (no_route s w r t u)) (code, unrouted t u, sent)
    ]
  ]

  -- The server answers every request with one code, which it also logs. A POST to /check, and one to
  -- /status, is answered as its handler answers the body: with 400 and no call of the limiter for
  -- a body that is no request, and after one call with 503 or 200, with and without an error. Any
  -- other request leaves the state as it is. The mux is assumed to answer those with one code.
  pub serve-answers :
      (s : S) (w : ResponseWriter) (r : Request Body)
      → IsMux
      → w.codes ≡ []
      → let (s', client, log) = serve go engine codec mux s w r in
        (code : ℕ) × Answer s r s' code × (client.codes ≡ code ∷ []) × (log.status ≡ code)
  unfolding serve
  serve-answers s w r laws e =
      let (code, answer, sent) =
        router_answers s (wrap_response_writer w) r laws
          (record { codes = e; status = refl; unsent = refl }) in
      (code, answer, sent.codes_are, sent.status_is)
