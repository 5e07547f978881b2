-- ===== src/Escrow/Fake.antt =====
-- api/internal/escrow/fake_client.go. It calls no chain: its state is what the rest has of one.
use railway.Base.{◌++◌, [], if◌then◌else◌}
use railway.Base.Result.{Result, ok, err}
use railway.Text.{Text, codes, is_empty}
use railway.Text.Hex.{hex}
use railway.Escrow.Defs.{SubmitIntentRequest, SubmitIntentResponse, ExecuteMintResponse, Client}

-- SHA-256 is a parameter: the digest's bytes.
module _ (sha256 : Text → Text) where
  unfoldable pub fake_hash : Text → Text
  fake_hash input = codes "0x" ++ hex (sha256 input)

  unfoldable pub submit_intent : SubmitIntentRequest → Result SubmitIntentResponse
  submit_intent req =
      if is_empty req.user_address
      then err (codes "missing user address")
      else ok (record {
        intent_id =
            codes "0x"
            ++ hex (sha256 (req.user_address ++ (req.amount ++ (req.country_code ++ req.tx_ref))));
        tx_hash = [];
      })

  unfoldable pub execute_mint : Text → Result ExecuteMintResponse
  execute_mint intent = ok (record { tx_hash = fake_hash intent })

  unfoldable pub ping : Unit {0} → Result (Unit {0})
  ping c = ok tt

  abbrev pub fake_client : Client
  fake_client = record {
    Chain = Unit {0};
    submit_intent = λ req c. (submit_intent req, c);
    execute_mint = λ intent c. (execute_mint intent, c);
  }
