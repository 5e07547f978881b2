-- ===== src/Hmac/Laws.antt =====
-- When a request passes the check, and what a handler behind it is given.
use railway.Base.{
  ◌≡◌, refl, ◌≢◌, ◌↔◌, [], true, false, ◌^◌, ◌-◌, some, arith, Option-cases, Bool-cases, inl, inr,
  sym,
}
use railway.Base.Int.{ℤ, pos, ltb_ℤ}
use railway.Base.Result.{Result, ok, err, Result-cases}
use railway.Text.{Text, is_empty, ne-nil_of_is_empty, text_eq, text_eq_iff, parse_int}
use railway.Text.Parsing.{parse_int-ne-nil}
use railway.Time
use railway.Time.{IsWithin, sub-IsWithin}
use railway.Http.{Request, header_get, Response, http_error, Body, no_body, reader, broken}
use railway.Hmac.{
  Verifier, signature_name, timestamp_name, now_of, read_body, is_stale, compute_signature, verify,
  middleware,
}

-- The headers that the check reads.
abbrev pub signature_of : Verifier → Request → Text
signature_of v r = header_get (signature_name v) r.headers

abbrev pub timestamp_of : Verifier → Request → Text
timestamp_of v r = header_get (timestamp_name v) r.headers

-- The bytes that a body holds.
abbrev pub bytes_of : Body → Result Text
bytes_of no_body = ok []
bytes_of (reader s) = ok s
bytes_of (broken e) = err e

read_body_lem : (r : Request) (body : Text) → bytes_of r.body ≡ ok body → read_body r ≡ ok (body, r)
unfolding read_body
read_body_lem r body e = ground arith

-- Reading the body gives its bytes and leaves the request as it was.
read_body-bytes_of :
    (r r' : Request) (body : Text)
    → read_body r ≡ ok (body, r')
    → (bytes_of r.body ≡ ok body) × (r' ≡ r)
unfolding read_body
read_body-bytes_of r r' body e = ground arith

module _ (mac : Text → Text → Text) where
  -- `r` bears the signature of its timestamp and its body under the secret, at a time within the
  -- skew.
  abbrev pub IsAuthentic : Verifier → ℤ → Request → Type 0
  IsAuthentic v clock r =
      (ts : ℤ) × (body : Text) × (parse_int (timestamp_of v r) ≡ some ts)
      × (bytes_of r.body ≡ ok body)
      × IsWithin v.max_skew (now_of v clock) (Time.unix ts)
      × (signature_of v r ≢ [])
      × (signature_of v r ≡ compute_signature mac v.secret (timestamp_of v r) body)

  -- What `verify` tests once the timestamp is parsed and the body is read.
  abbrev IsChecked : Verifier → ℤ → Request → Request → ℤ → Text → Type 0
  IsChecked v clock r r' ts body =
      (parse_int (timestamp_of v r) ≡ some ts)
      × (is_stale v (now_of v clock) (Time.unix ts) ≡ false)
      × (read_body r ≡ ok (body, r'))
      × (signature_of v r ≢ [])
      × (text_eq (compute_signature mac v.secret (timestamp_of v r) body) (signature_of v r) ≡ true)

  verify_parts :
      (v : Verifier) (clock : ℤ) (r r' : Request)
      → v.secret ≢ []
      → verify mac v clock r ≡ ok r'
      → (ts : ℤ) × (body : Text) × IsChecked v clock r r' ts body
  unfolding verify
  verify_parts v clock r r' s e = elim (Option-cases (parse_int (timestamp_of v r))) [
    | inl bad ↦ absurd (ground arith)
    | inr (ts, parsed) ↦ elim (Result-cases (read_body r)) [
      | inl (message, bad) ↦ absurd (ground arith)
      | inr ((body, r2), read) ↦ (ts, body, ground arith)
    ]
  ]

  verify_of_parts :
      (v : Verifier) (clock : ℤ) (r r' : Request) (ts : ℤ) (body : Text)
      → v.secret ≢ []
      → IsChecked v clock r r' ts body
      → verify mac v clock r ≡ ok r'
  unfolding verify
  verify_of_parts v clock r r' ts body s (parsed, fresh, read, signed, same) =
      ground (arith, parse_int-ne-nil (timestamp_of v r) parsed)

  -- is_stale tells, for a skew below the greatest Duration.
  fresh_iff :
      (v : Verifier) (clock : ℤ) (t : ℤ)
      → ltb_ℤ v.max_skew (pos (2 ^ 63 - 1)) ≡ true
      → (is_stale v (now_of v clock) t ≡ false) ↔ IsWithin v.max_skew (now_of v clock) t
  unfolding is_stale
  fresh_iff v clock t h = sub-IsWithin v.max_skew (now_of v clock) t h

  -- With a secret, and a skew below the greatest Duration, the check accepts exactly the authentic
  -- requests, and hands on the request as it came, its body included.
  pub verify_iff :
      (v : Verifier) (clock : ℤ) (r r' : Request)
      → v.secret ≢ []
      → ltb_ℤ v.max_skew (pos (2 ^ 63 - 1)) ≡ true
      → (verify mac v clock r ≡ ok r') ↔ ((r' ≡ r) × IsAuthentic v clock r)
  verify_iff v clock r r' s h = (
    λ e.
        let (ts, body, (parsed, fresh, read, signed, same)) = verify_parts v clock r r' s e in
        let (held, kept) = read_body-bytes_of r r' body read in
        (
          kept,
          (
            ts,
            body,
            parsed,
            held,
            (fresh_iff v clock _ h).0 fresh,
            signed,
            sym ((text_eq_iff _ _).0 same),
          ),
        ),
    λ (p : (r' ≡ r) × IsAuthentic v clock r).
        let (ts, body, parsed, held, fresh, signed, same) = p.1 in
        rw p.0 (
          verify_of_parts v clock r r ts body s (
            parsed,
            (fresh_iff v clock _ h).1 fresh,
            read_body_lem r body held,
            signed,
            (text_eq_iff _ _).1 (sym same),
          )),
  )

  -- A request that is not authentic is answered with 401 and changes nothing, whatever the handler.
  pub middleware-rejects {ℓ} :
      {S : Type ℓ} (v : Verifier) (clock : ℤ) (next : Request → S → Response × S) (r : Request)
      (s : S)
      → v.secret ≢ []
      → ltb_ℤ v.max_skew (pos (2 ^ 63 - 1)) ≡ true
      → ¬ IsAuthentic v clock r
      → (e : Text) × (middleware mac v clock next r s ≡ (http_error e 401, s))
  unfolding middleware
  middleware-rejects v clock next r s known h forged = elim (Result-cases (verify mac v clock r)) [
    | inl (e, bad) ↦ (e, rw (bad, middleware))
    | inr (r', good) ↦ absurd (forged ((verify_iff v clock r r' known h).0 good).1)
  ]

  -- An authentic request reaches the handler as it came.
  pub middleware-admits {ℓ} :
      {S : Type ℓ} (v : Verifier) (clock : ℤ) (next : Request → S → Response × S) (r : Request)
      (s : S)
      → v.secret ≢ []
      → ltb_ℤ v.max_skew (pos (2 ^ 63 - 1)) ≡ true
      → IsAuthentic v clock r
      → middleware mac v clock next r s ≡ next r s
  unfolding middleware
  middleware-admits v clock next r s known h genuine =
      rw ((verify_iff v clock r r known h).1 (refl, genuine), middleware)

  -- A request that passed once passes again at every time within the skew: nothing is remembered.
  pub verify_replay :
      (v : Verifier) (clock later : ℤ) (r r' : Request)
      → v.secret ≢ []
      → ltb_ℤ v.max_skew (pos (2 ^ 63 - 1)) ≡ true
      → verify mac v clock r ≡ ok r'
      → ((ts : ℤ)
          → parse_int (timestamp_of v r) ≡ some ts
          → IsWithin v.max_skew (now_of v later) (Time.unix ts))
      → verify mac v later r ≡ ok r'
  verify_replay v clock later r r' known h e near =
      let (same, (ts, body, parsed, held, fresh, signed, eq)) =
        (verify_iff v clock r r' known h).0 e in
      (verify_iff v later r r' known h).1
        (same, (ts, body, parsed, held, near ts parsed, signed, eq))

  -- An accepted request is handed on as it came, whatever the secret and the skew.
  pub verify-restores :
      (v : Verifier) (clock : ℤ) (r r' : Request) → verify mac v clock r ≡ ok r' → r' ≡ r
  verify-restores v clock r r' e = elim (Bool-cases (is_empty v.secret)) [
    | inl open_door ↦ (unfold verify in ground arith)
    | inr known ↦
        let (ts, body, checked) = verify_parts v clock r r' (ne-nil_of_is_empty v.secret known) e in
        (read_body-bytes_of r r' body checked.2).1
  ]

  -- What holds of the state, and of what the handler makes of it, holds behind the middleware.
  pub middleware_keeps {ℓ κ} :
      {S : Type ℓ} (P : S → Type κ) (v : Verifier) (clock : ℤ) (next : Request → S → Response × S)
      (r : Request) (s : S)
      → P s
      → P (next r s).1
      → P (middleware mac v clock next r s).1
  unfolding middleware
  middleware_keeps P v clock next r s h k = elim (Result-cases (verify mac v clock r)) [
    | inl (e, bad) ↦ rw (bad, middleware) h
    | inr (r', good) ↦ rw (good, middleware, verify-restores v clock r r' good) k
  ]

  -- Behind the middleware a response with another status than 401 is the handler's.
  pub middleware_passed {ℓ} :
      {S : Type ℓ} (v : Verifier) (clock : ℤ) (next : Request → S → Response × S) (r : Request)
      (s : S)
      → (middleware mac v clock next r s).0.status ≢ 401
      → middleware mac v clock next r s ≡ next r s
  unfolding middleware http_error
  middleware_passed v clock next r s h = elim (Result-cases (verify mac v clock r)) [
    | inl (e, bad) ↦ absurd (h (rw (bad, middleware)))
    | inr (r', good) ↦ rw (good, middleware, verify-restores v clock r r' good)
  ]

  pub middleware_of_verify {ℓ} :
      {S : Type ℓ} (v : Verifier) (clock : ℤ) (next : Request → S → Response × S) (r r' : Request)
      (s : S)
      → verify mac v clock r ≡ ok r'
      → middleware mac v clock next r s ≡ next r s
  unfolding middleware
  middleware_of_verify v clock next r r' s good =
      rw (good, middleware, verify-restores v clock r r' good)
