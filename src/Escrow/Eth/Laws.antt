-- ===== src/Escrow/Eth/Laws.antt =====
-- What the Ethereum client submits, the intent id that it reports, and the ids that it refuses.
use railway.Base.{
  ◌≡◌, refl, ◌↔◌, ◌≤◌, false, none, some, [], ◌∷◌, ◌++◌, ◌∙◌, ap, arith, length, take, Option-cases,
  inl, inr,
}
use railway.Base.Int.{ℤ}
use railway.Base.Result.{ok, err, Result-cases}
use railway.Text.{Text, codes, set_string_10}
use railway.Escrow.Defs.{SubmitIntentRequest, SubmitIntentResponse}
use railway.Escrow.Eth.Bytes.{to_bytes32, natural_bytes, magnitude}
use railway.Escrow.Eth.Bytes.Laws.{to_bytes32_prefix}
use railway.Contracts.MintEscrow.{contract_intent_id}
use railway.Escrow.Eth.{
  submit_intent_call, Geth, EthClient, validate_submit_request, compute_intent_id, intent_preimage,
  submit_intent, execute_mint, is_intent_id,
}

append-cancel : (s t u v : Text) → length s ≡ length t → s ++ u ≡ t ++ v → s ≡ t
append-cancel [] [] u v h e = refl
append-cancel [] (d ∷ t) u v h e = absurd (omega arith)
append-cancel (c ∷ s) [] u v h e = absurd (omega arith)
append-cancel (c ∷ s) (d ∷ t) u v h e = cc (append-cancel s t u v (omega arith) (cc))

module _ (g : Geth) where
  abbrev pub preimage_of : SubmitIntentRequest → ℤ → Text → Text
  preimage_of req amount address =
      intent_preimage g address amount (to_bytes32 req.country_code) (to_bytes32 req.tx_ref)

  -- The contract's id of the request's intent for a sender, in hexadecimal.
  abbrev pub contract_id : SubmitIntentRequest → ℤ → Text → Text
  contract_id req amount sender = g.hash_hex (
      contract_intent_id g.keccak256 sender (g.left_pad_bytes (natural_bytes (magnitude amount)) 32)
        (to_bytes32 req.country_code) (to_bytes32 req.tx_ref))

module _ (g : Geth) where
  -- The id depends on no more than 32 bytes of the reference: two payments whose references begin
  -- with the same 32 bytes, and that agree in the rest, have one intent.
  pub compute_intent_id_truncates :
      (req : SubmitIntentRequest) (other : Text)
      → 32 ≤ length req.tx_ref
      → 32 ≤ length other
      → take 32 req.tx_ref ≡ take 32 other
      → compute_intent_id g (record req { tx_ref = other }) ≡ compute_intent_id g req
  unfolding compute_intent_id
  compute_intent_id_truncates req other h k e =
      ground (arith, to_bytes32_prefix req.tx_ref other h k e)

  module _ (c : EthClient g) (opts : g.Opts) (can_send : c.transacts ≡ some opts) where
    -- A submission that succeeds has sent one transaction, with the amount that the text stands for,
    -- and reports the id computed of the same request.
    pub submit_intent_sound :
        (req : SubmitIntentRequest) (node next : g.Node) (resp : SubmitIntentResponse)
        → submit_intent g c req node ≡ (ok resp, next)
        → (amount : ℤ) × (hash : Text) × (set_string_10 req.amount ≡ some amount)
          × (validate_submit_request g req ≡ none)
          × (g.transact opts c.address
                (submit_intent_call amount (to_bytes32 req.country_code) (to_bytes32 req.tx_ref))
                node
              ≡ (ok hash, next))
          × (resp.tx_hash ≡ g.hash_hex hash)
          × (compute_intent_id g req ≡ ok resp.intent_id)
    unfolding submit_intent
    submit_intent_sound req node next resp e = elim (Option-cases (set_string_10 req.amount)) [
      | inl bad ↦ absurd (ground arith)
      | inr (amount, parsed) ↦
          elim (Result-cases
            (g.transact opts c.address
              (submit_intent_call amount (to_bytes32 req.country_code) (to_bytes32 req.tx_ref))
              node).0) [
                | inl (m, bad) ↦ absurd (ground arith)
                | inr (hash, sent) ↦
                    (amount, hash, parsed, ground arith, ground arith, ground arith, ground arith)
              ]
    ]

  -- An intent id that is not 0x and 64 more bytes is refused before anything is sent.
  pub execute_mint_malformed :
      (c : EthClient g) (opts : g.Opts) (id : Text) (node : g.Node)
      → c.transacts ≡ some opts
      → is_intent_id g c id ≡ false
      → execute_mint g c id node ≡ (err (codes "invalid intent id"), node)
  unfolding execute_mint
  execute_mint_malformed c opts id node can bad = rw (can, bad)

  compute_intent_id-parsed :
      (req : SubmitIntentRequest) (amount : ℤ)
      → set_string_10 req.amount ≡ some amount
      → compute_intent_id g req ≡ ok (contract_id g req amount (g.hex_to_address req.user_address))
  unfolding compute_intent_id contract_intent_id
  compute_intent_id-parsed req amount parsed = ground arith

  -- The contract takes the sender's address where the client takes the request's. Where Keccak-256
  -- does not collide at the two inputs, nor the hexadecimal forms at the two hashes, the reported id
  -- is the contract's exactly when the user's address is the sender's.
  pub compute_intent_id-contract_iff :
      (req : SubmitIntentRequest) (amount : ℤ) (sender : Text)
      → set_string_10 req.amount ≡ some amount
      → length (g.hex_to_address req.user_address) ≡ length sender
      → (contract_id g req amount (g.hex_to_address req.user_address)
            ≡ contract_id g req amount sender
          → preimage_of g req amount (g.hex_to_address req.user_address)
            ≡ preimage_of g req amount sender)
      → (compute_intent_id g req ≡ ok (contract_id g req amount sender))
        ↔ (g.hex_to_address req.user_address ≡ sender)
  compute_intent_id-contract_iff req amount sender parsed same no_collision =
      let computed = compute_intent_id-parsed req amount parsed in
      (
        (λ e.
            append-cancel (g.hex_to_address req.user_address) sender _ _ same (no_collision (cc))),
        (λ e. computed ∙ ap (λ a. ok (contract_id g req amount a)) e),
      )
