-- ===== src/Api/Writer.antt =====
-- internal/api/middleware.go, and `http.Error` as net/http documents it.
pub mod Recorded
use Prim.Native.String.{◌++◌ as append}
use suffren.Base.{ℕ, Bool, true, false, String, List, [], ◌∷◌, ◌++◌, if◌then◌else◌, string_key}
use suffren.GoMap.{GoMap, put}

-- The calls that a writer of net/http has got. The client sees the first code, or 200 if a body or
-- nothing comes first; net/http ignores the codes after it.
pub record ResponseWriter : Type 0 where
  pub headers : GoMap String String
  pub codes : List ℕ
  pub body : List String

pub record Wrapped : Type 0 where
  pub inner : ResponseWriter
  pub status : ℕ
  pub wrote_header : Bool

unfoldable pub wrap_response_writer : ResponseWriter → Wrapped
wrap_response_writer w = record { inner = w; status = 200; wrote_header = false }

unfoldable pub set_header : Wrapped → String → String → Wrapped
unfolding put
set_header rw key value = record rw {
  inner = record rw.inner { headers = put key value rw.inner.headers };
}

unfoldable pub write_header : Wrapped → ℕ → Wrapped
write_header rw code = if rw.wrote_header then rw else record {
  inner = record rw.inner { codes = rw.inner.codes ++ code ∷ [] };
  status = code;
  wrote_header = true;
}

unfoldable pub write : Wrapped → String → Wrapped
unfolding write_header
write rw text =
    let sent = if rw.wrote_header then rw else write_header rw 200 in
    record sent { inner = record sent.inner { body = sent.inner.body ++ text ∷ [] } }

-- `http.Error`
unfoldable pub http_error : Wrapped → String → ℕ → Wrapped
unfolding set_header write_header write
http_error rw text code =
    write
      (write_header
        (set_header (set_header rw "Content-Type" "text/plain; charset=utf-8")
          "X-Content-Type-Options" "nosniff")
        code)
      (append text "\n")

pub record Request (Body : Type 0) : Type 0 where
  pub method : String
  pub path : String
  pub remote_addr : String
  pub body : Body

-- What the middleware logs of a request, its duration left out.
pub record Log : Type 0 where
  pub method : String
  pub path : String
  pub status : ℕ
  pub remote_ip : String

-- The handler that comes next works on a state.
unfoldable pub logging_middleware :
    {S Body : Type 0}
    → (S → Wrapped → Request Body → S × Wrapped)
    → S
    → ResponseWriter
    → Request Body
    → S × ResponseWriter × Log
unfolding wrap_response_writer
logging_middleware next s w r =
    let (s', wrapped) = next s (wrap_response_writer w) r in
    (
      s',
      wrapped.inner,
      record {
        method = r.method;
        path = r.path;
        status = wrapped.status;
        remote_ip = r.remote_addr;
      },
    )
