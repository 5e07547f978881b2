-- ===== src/Hmac.antt =====
-- api/internal/hmacauth/middleware.go: the check of a request's signature and timestamp.
pub mod Laws
use railway.Base.{◌||◌, [], ◌∷◌, ◌++◌, Option, none, some, List, if◌then◌else◌, Bool, true, false}
use railway.Base.Int.{ℤ, ltb_ℤ}
use railway.Base.Result.{Result, ok, err, ◌>>=◌}
use railway.Text.{Text, codes, is_empty, text_eq, to_lower, parse_int}
use railway.Text.Hex.{hex}
use railway.Time
use railway.Http.{Body, no_body, reader, broken, Request, header_get, Response, http_error}

abbrev pub default_signature_header : Text
default_signature_header = codes "X-Request-Signature"

abbrev pub default_timestamp_header : Text
default_timestamp_header = codes "X-Request-Timestamp"

abbrev pub err_missing_signature : Text
err_missing_signature = codes "missing request signature"

abbrev pub err_missing_timestamp : Text
err_missing_timestamp = codes "missing request timestamp"

abbrev pub err_stale_timestamp : Text
err_stale_timestamp = codes "stale request timestamp"

abbrev pub err_invalid_signature : Text
err_invalid_signature = codes "invalid request signature"

-- `now` is the field Now: `none` where it is nil.
pub record Verifier : Type 0 where
  pub secret : Text
  pub max_skew : ℤ
  pub now : Option ℤ
  pub body_copy : Bool
  pub signature_header : Text
  pub timestamp_header : Text

abbrev or_default : Text → Text → Text
or_default name fallback = if is_empty name then fallback else name

abbrev pub signature_name : Verifier → Text
signature_name v = or_default v.signature_header default_signature_header

abbrev pub timestamp_name : Verifier → Text
timestamp_name v = or_default v.timestamp_header default_timestamp_header

abbrev time_of : Option ℤ → ℤ → ℤ
time_of none clock = clock
time_of (some t) clock = t

-- The time that the check reads, `clock` being time.Now().
abbrev pub now_of : Verifier → ℤ → ℤ
now_of v clock = time_of v.now clock

-- io.ReadAll(r.Body): the bytes, and the reader at its end.
abbrev read_all : Body → Result (Text × Body)
read_all no_body = ok ([], no_body)
read_all (reader s) = ok (s, reader [])
read_all (broken e) = err e

abbrev is_nil : Body → Bool
is_nil no_body = true
is_nil _ = false

-- The body's bytes, and the request with a fresh reader over them.
unfoldable pub read_body : Request → Result (Text × Request)
read_body r =
    if is_nil r.body
    then ok ([], r)
    else read_all r.body >>= λ p. ok (p.0, record r { body = reader p.0 })

-- The timestamp that the header holds.
abbrev timestamp : Option ℤ → Result ℤ
timestamp none = err err_missing_timestamp
timestamp (some ts) = ok ts

-- now.Sub(reqTime) > v.MaxSkew || reqTime.Sub(now) > v.MaxSkew
unfoldable pub is_stale : Verifier → ℤ → ℤ → Bool
is_stale v now req_time =
    ltb_ℤ v.max_skew (Time.sub now req_time) || ltb_ℤ v.max_skew (Time.sub req_time now)

-- HMAC with SHA-256 is a parameter: `mac key message` is the digest's bytes.
module _ (mac : Text → Text → Text) where
  -- Two writes to a hash.Hash hash the concatenation.
  unfoldable pub compute_signature : Text → Text → Text → Text
  compute_signature secret ts body = to_lower (hex (mac secret (ts ++ body)))

  -- The request comes back with its body restored.
  unfoldable pub verify : Verifier → ℤ → Request → Result Request
  verify v clock r =
      if is_empty v.secret
      then ok r
      else let sig = header_get (signature_name v) r.headers in
        let ts_header = header_get (timestamp_name v) r.headers in
        if is_empty sig
        then err err_missing_signature
        else if is_empty ts_header
        then err err_missing_timestamp
        else timestamp (parse_int ts_header) >>= λ ts.
            if is_stale v (now_of v clock) (Time.unix ts)
            then err err_stale_timestamp
            else read_body r >>= λ p.
                if text_eq (compute_signature v.secret ts_header p.0) sig
                then ok p.1
                else err err_invalid_signature

  -- The middleware around a handler that turns the state of the rest of the program into another.
  unfoldable pub middleware {ℓ} :
      {S : Type ℓ} → Verifier → ℤ → (Request → S → Response × S) → Request → S → Response × S
  middleware v clock next r s = elim (verify v clock r) [
    | ok r' ↦ next r' s
    | err e ↦ (http_error e 401, s)
  ]
