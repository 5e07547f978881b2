-- ===== src/Http.antt =====
-- What the API uses of net/http: a request, its body as a reader, and the response that a handler
-- writes. Header names are in their canonical spelling, as they are in the source.
use railway.Base.{ℕ, List, [], ◌∷◌, ◌++◌, if◌then◌else◌}
use railway.Text.{Text, codes, text_eq}

-- r.Body: nil, or a reader with the bytes that are left, or one that fails.
pub data Body : Type 0 where
  no_body : Body
  reader : Text → Body
  broken : Text → Body

pub record Request : Type 0 where
  pub method : Text
  pub path : Text
  pub headers : List (Text × Text)
  pub body : Body

-- r.Header.Get(name): the first value, or "".
unfoldable pub header_get : Text → List (Text × Text) → Text
header_get name [] = []
header_get name ((k, v) ∷ hs) = if text_eq k name then v else header_get name hs

pub record Response : Type 0 where
  pub status : ℕ
  pub content_type : Text
  pub content : Text

-- http.Error(w, message, status)
unfoldable pub http_error : Text → ℕ → Response
http_error message status = record {
  status = status;
  content_type = codes "text/plain; charset=utf-8";
  content = message ++ 10 ∷ [];
}

-- A Content-Type of application/json, WriteHeader(status) and Write(content).
unfoldable pub json_response : ℕ → Text → Response
json_response status content = record {
  status = status;
  content_type = codes "application/json";
  content = content;
}
