-- ===== src/Examples/Signatures.antt =====
-- Signed and forged requests.
use railway.Base.{ℕ, ◌+◌, ◌≡◌, ◌≢◌, refl, ◌↔◌, []}
use railway.Base.Int.{pos}
use railway.Base.Result.{ok, err}
use railway.Text.{Text, codes}
use railway.Http.{Request, Response, reader, http_error, json_response}
use railway.Hmac.{Verifier, verify, middleware}
use railway.Hmac.Laws.{IsAuthentic, verify_iff, middleware-rejects}
use railway.Server.Serve.{hmac_verifier}
use railway.Examples.Setting.{code, outside, config, mint_request}

abbrev v : Verifier
v = hmac_verifier config

abbrev signed : Request
signed = mint_request (codes "k") (codes "1")

abbrev forged : Request
forged = record signed { body = reader (codes "2") }

verify_iff_example :
    (verify outside.mac v (pos 110000000000) signed ≡ ok signed)
    ↔ ((signed ≡ signed) × IsAuthentic outside.mac v (pos 110000000000) signed)
unfolding code
verify_iff_example = verify_iff outside.mac v (pos 110000000000) signed signed (λ h. cc) refl

accepted : verify outside.mac v (pos 110000000000) signed ≡ ok signed
unfolding code
accepted = refl

rejected : verify outside.mac v (pos 110000000000) forged ≡ err (codes "invalid request signature")
unfolding code
rejected = refl

known : v.secret ≢ []
unfolding code
known h = cc

-- A handler that is not reached.
abbrev next : Request → ℕ → Response × ℕ
next r n = (json_response 200 [], n + 1)

forged-not-IsAuthentic : ¬ IsAuthentic outside.mac v (pos 110000000000) forged
forged-not-IsAuthentic h =
    let accepted =
      (verify_iff outside.mac v (pos 110000000000) forged forged known refl).1 (refl, h) in
    cc (rejected)

middleware-rejects_example :
    (e : Text) × (middleware outside.mac v (pos 110000000000) next forged 4 ≡ (http_error e 401, 4))
middleware-rejects_example =
    middleware-rejects outside.mac v (pos 110000000000) next forged 4 known refl
      forged-not-IsAuthentic
