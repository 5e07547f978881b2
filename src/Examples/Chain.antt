-- ===== src/Examples/Chain.antt =====
-- The Ethereum client over a node that counts its transactions.
use railway.Escrow.Receipt.{wait_for_receipt, wait_for_receipt_lem}
use railway.Base.{
  Option, ◌==◌, if◌then◌else◌, ℕ, ◌+◌, ◌≡◌, refl, ◌↔◌, true, none, some, [], ◌∷◌, arith, length,
}
use railway.Base.Int.{ℤ, pos}
use railway.Base.Result.{Result, ok}
use railway.Text.{text_eq, Text, codes, set_string_10, trim_space}
use railway.Escrow.{SubmitIntentRequest, SubmitIntentResponse}
use railway.Escrow.Eth.{
  Geth, EthClient, submit_intent_call, validate_submit_request, compute_intent_id, submit_intent,
}
use railway.Escrow.Eth.Bytes.{to_bytes32, natural_bytes}
use railway.Contracts.MintEscrow.{contract_intent_id}
use railway.Escrow.Eth.Laws.{contract_id, submit_intent_sound, compute_intent_id-contract_iff}

-- Addresses are one byte, and the hash is the text itself.
abbrev pub geth : Geth
geth = record {
  Node = ℕ;
  Abi = Unit {0};
  Key = Unit {0};
  Opts = Unit {0};
  dial = λ url. ok 0;
  parse_abi = ok tt;
  chain_id = λ n. ok (pos 31430);
  hex_to_ecdsa = λ k. ok tt;
  transactor = λ k id. ok tt;
  transact = λ opts address call n. (ok (n ∷ []), n + 1);
  block_number = λ n. ok (pos n);
  is_hex_address = λ s. true;
  hex_to_address = λ s. length s ∷ [];
  left_pad_bytes = λ s n. s;
  keccak256 = λ s. s;
  hex_to_hash = λ s. s;
  hash_hex = λ s. s;
}

abbrev pub client : EthClient geth
client = record {
  has_client = true;
  address = [];
  abi = some tt;
  chain_id = some (pos 31430);
  transacts = some tt;
}

abbrev request : SubmitIntentRequest
request = record {
  user_address = codes "0xabc";
  amount = codes "1000";
  country_code = codes "KES";
  tx_ref = codes "tx-1";
}

abbrev answer : Result SubmitIntentResponse × ℕ
answer = submit_intent geth client request 4

abbrev response : SubmitIntentResponse
response = record { intent_id = contract_id geth request (pos 1000) (5 ∷ []); tx_hash = 4 ∷ [] }

submit_intent_sound_example :
    (amount : ℤ) × (hash : Text) × (set_string_10 request.amount ≡ some amount)
    × (validate_submit_request geth request ≡ none)
    × (geth.transact tt client.address
          (submit_intent_call amount (to_bytes32 request.country_code) (to_bytes32 request.tx_ref))
          4
        ≡ (ok hash, 5))
    × (response.tx_hash ≡ geth.hash_hex hash)
    × (compute_intent_id geth request ≡ ok response.intent_id)
unfolding submit_intent validate_submit_request compute_intent_id contract_intent_id codes
    set_string_10 trim_space
submit_intent_sound_example = submit_intent_sound geth client tt refl request 4 5 response refl

amount_1000 : set_string_10 (codes "1000") ≡ some (pos 1000)
unfolding codes set_string_10
amount_1000 = refl

compute_intent_id-contract_iff_example :
    (compute_intent_id geth request ≡ ok (contract_id geth request (pos 1000) (9 ∷ [])))
    ↔ (geth.hex_to_address request.user_address ≡ 9 ∷ [])
unfolding contract_intent_id
compute_intent_id-contract_iff_example =
    compute_intent_id-contract_iff geth request (pos 1000) (9 ∷ []) amount_1000 refl (λ h. h)

bytes_of_65538 : natural_bytes 65538 ≡ 1 ∷ 0 ∷ 2 ∷ []
unfolding natural_bytes
bytes_of_65538 = refl

-- The receipt comes with the third call.
abbrev receipt_after_two : ℕ → Option ℕ
receipt_after_two n = if n == 2 then some 77 else none

wait_for_receipt_lem_example :
    wait_for_receipt receipt_after_two (λ i. some (codes "not found")) (λ i. none) 3 0
    ≡ some (ok 77)
unfolding codes text_eq
wait_for_receipt_lem_example =
    wait_for_receipt_lem receipt_after_two (λ i. some (codes "not found")) (λ i. none) 2 3 77
      (omega arith) (refl, refl, refl, (refl, refl, refl, tt)) refl
