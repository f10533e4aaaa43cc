-- ===== src/Api/Writer/Recorded.antt =====
-- The status that is logged is the one that the client sees.
use suffren.Base.{ℕ, ◌≡◌, refl, sym, subst, true, false, String, List, [], ◌∷◌, ◌++◌}
use suffren.Api.Writer.{
  ResponseWriter, Wrapped, Request, wrap_response_writer, set_header, write_header, write,
  logging_middleware,
}

-- A handler, as the calls that it makes of its writer.
pub data Call : Type 0 where
  sets : String → String → Call
  writes_header : ℕ → Call
  writes : String → Call

unfoldable pub run : Wrapped → List Call → Wrapped
unfolding set_header write_header write
run rw [] = rw
run rw (sets key value ∷ calls) = run (set_header rw key value) calls
run rw (writes_header code ∷ calls) = run (write_header rw code) calls
run rw (writes text ∷ calls) = run (write rw text) calls

-- The code that the calls choose: that of the first `WriteHeader`, if no `Write` comes before.
abbrev pub first_code : List Call → ℕ
first_code [] = 200
first_code (sets key value ∷ calls) = first_code calls
first_code (writes_header code ∷ calls) = code
first_code (writes text ∷ calls) = 200

-- The codes that reach net/http, one or none.
abbrev pub sent_codes : List Call → List ℕ
sent_codes [] = []
sent_codes (sets key value ∷ calls) = sent_codes calls
sent_codes (writes_header code ∷ calls) = code ∷ []
sent_codes (writes text ∷ calls) = 200 ∷ []

write_header_again : (w : Wrapped) (code : ℕ) → w.wrote_header ≡ true → write_header w code ≡ w
unfolding write_header
write_header_again w code e = rw e

write_again :
    (w : Wrapped) (text : String)
    → w.wrote_header ≡ true
    → write w text ≡ record w { inner = record w.inner { body = w.inner.body ++ text ∷ [] } }
unfolding write
write_again w text e = rw (e) refl

-- The codes and the status are these, and a code was sent.
pub record HasSent (codes : List ℕ) (status : ℕ) (w : Wrapped) : Type 0 where
  pub codes_are : w.inner.codes ≡ codes
  pub status_is : w.status ≡ status
  pub sent : w.wrote_header ≡ true

header-HasSent :
    (cs : List ℕ) (n code : ℕ) (w : Wrapped) → HasSent cs n w → HasSent cs n (write_header w code)
header-HasSent cs n code w h =
    subst (λ v. HasSent cs n v) (sym (write_header_again w code h.sent)) h

pub write-HasSent :
    (cs : List ℕ) (n : ℕ) (text : String) (w : Wrapped)
    → HasSent cs n w
    → HasSent cs n (write w text)
write-HasSent cs n text w h =
    subst (λ v. HasSent cs n v) (sym (write_again w text h.sent))
      (record { codes_are = h.codes_are; status_is = h.status_is; sent = h.sent })

-- After the first code the codes and the status stay.
run-HasSent :
    (cs : List ℕ) (n : ℕ) (w : Wrapped) (calls : List Call)
    → HasSent cs n w
    → HasSent cs n (run w calls)
unfolding run
run-HasSent cs n w [] h = h
run-HasSent cs n w (sets key value ∷ calls) h =
    run-HasSent cs n (set_header w key value) calls
      (record { codes_are = h.codes_are; status_is = h.status_is; sent = h.sent })
run-HasSent cs n w (writes_header code ∷ calls) h =
    run-HasSent cs n (write_header w code) calls (header-HasSent cs n code w h)
run-HasSent cs n w (writes text ∷ calls) h =
    run-HasSent cs n (write w text) calls (write-HasSent cs n text w h)

-- A writer to which nothing was sent.
pub record IsFresh (w : Wrapped) : Type 0 where
  pub codes : w.inner.codes ≡ []
  pub status : w.status ≡ 200
  pub unsent : w.wrote_header ≡ false

pub first_header :
    (w : Wrapped) (code : ℕ) → IsFresh w → HasSent (code ∷ []) code (write_header w code)
unfolding write_header
first_header w code f = record {
  codes_are = rw (f.unsent, f.codes) refl;
  status_is = rw (f.unsent) refl;
  sent = rw (f.unsent) refl;
}

first_write : (w : Wrapped) (text : String) → IsFresh w → HasSent (200 ∷ []) 200 (write w text)
unfolding write
first_write w text f = record {
  codes_are = rw (f.unsent, f.codes) refl;
  status_is = rw (f.unsent) refl;
  sent = rw (f.unsent) refl;
}

run-fresh :
    (w : Wrapped) (calls : List Call)
    → IsFresh w
    → ((run w calls).inner.codes ≡ sent_codes calls) × ((run w calls).status ≡ first_code calls)
unfolding run write
run-fresh w [] f = (f.codes, f.status)
run-fresh w (sets key value ∷ calls) f =
    run-fresh (set_header w key value) calls
      (record { codes = f.codes; status = f.status; unsent = f.unsent })
run-fresh w (writes_header code ∷ calls) f =
    let h = run-HasSent (code ∷ []) code (write_header w code) calls (first_header w code f) in
    (h.codes_are, h.status_is)
run-fresh w (writes text ∷ calls) f =
    let h = run-HasSent (200 ∷ []) 200 (write w text) calls (first_write w text f) in
    (h.codes_are, h.status_is)

-- A handler that makes the calls which it chooses for a state and a request.
abbrev pub calling :
    {S Body : Type 0}
    → (S → Request Body → S × List Call)
    → S
    → Wrapped
    → Request Body
    → S × Wrapped
calling next s w r = ((next s r).0, run w (next s r).1)

-- Whatever calls a handler makes of its writer behind the middleware, in whatever order: net/http
-- gets at most one code, that of the first call that sends something, and this is the status which
-- is logged; if nothing is sent 200 is logged, which net/http then sends.
pub logging_middleware-records :
    {S Body : Type 0} (next : S → Request Body → S × List Call) (s : S) (w : ResponseWriter)
    (r : Request Body)
    → w.codes ≡ []
    → let (s', client, log) = logging_middleware (calling next) s w r in
      (client.codes ≡ sent_codes (next s r).1) × (log.status ≡ first_code (next s r).1)
unfolding logging_middleware
logging_middleware-records next s w r e =
    run-fresh (wrap_response_writer w) (next s r).1
      (record { codes = e; status = refl; unsent = refl })
