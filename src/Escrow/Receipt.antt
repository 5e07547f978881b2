-- ===== src/Escrow/Receipt.antt =====
-- WaitForReceipt of api/internal/escrow/eth_client.go. The node's answers and the context are sequences.
use railway.Base.{ℕ, zero, suc, ◌+◌, ◌<◌, ◌≡◌, Option, none, some, arith, subst, if◌then◌else◌}
use railway.Base.Result.{Result, ok, err}
use railway.Text.{Text, codes, text_eq}

-- `receipts i` and `errors i` are the results of the i-th call of TransactionReceipt, `none` for nil;
-- `ended i` is ctx.Err() if the context ends before the i-th tick.
module _ {Receipt : Type 0} (receipts : ℕ → Option Receipt) (errors ended : ℕ → Option Text) where
  -- err != nil && err.Error() != "not found"
  abbrev is_failure : Option Text → Option Text
  is_failure none = none
  is_failure (some e) = if text_eq e (codes "not found") then none else some e

  -- The loop from the i-th call on, with fuel for the calls; `none` where the fuel is out.
  unfoldable pub wait_for_receipt : ℕ → ℕ → Option (Result Receipt)
  wait_for_receipt zero i = none
  wait_for_receipt (suc fuel) i = elim (receipts i) [
    | some r ↦ some (ok r)
    | none ↦ elim (is_failure (errors i)) [
      | some e ↦ some (err e)
      | none ↦ elim (ended i) [ some e ↦ some (err e) | none ↦ wait_for_receipt fuel (i + 1) ]
    ]
  ]

  -- The n calls from the i-th on find nothing: no receipt, no error but "not found", and the context
  -- lives on.
  abbrev pub IsPending : ℕ → ℕ → Type 0
  IsPending i zero = Unit
  IsPending i (suc n) =
      (receipts i ≡ none) × (is_failure (errors i) ≡ none) × (ended i ≡ none) × IsPending (i + 1) n

  wait_from :
      (n fuel i : ℕ) (r : Receipt)
      → n < fuel
      → IsPending i n
      → receipts (i + n) ≡ some r
      → wait_for_receipt fuel i ≡ some (ok r)
  unfolding wait_for_receipt
  wait_from n zero i r h p e = absurd (omega arith)
  wait_from zero (suc fuel) i r h p e =
      let e' : receipts i ≡ some r = subst (λ j. receipts j ≡ some r) (omega arith) e in
      rw (e', wait_for_receipt)
  wait_from (suc n) (suc fuel) i r h (a, b, c, p) e =
      rw (a, b, c, wait_for_receipt)
        (wait_from n fuel (i + 1) r (omega arith) p
          (subst (λ j. receipts j ≡ some r) (omega arith) e))

  -- If the first n calls find nothing and the next finds the receipt, the receipt is returned, with
  -- fuel for n + 1 calls.
  pub wait_for_receipt_lem :
      (n fuel : ℕ) (r : Receipt)
      → n < fuel
      → IsPending 0 n
      → receipts n ≡ some r
      → wait_for_receipt fuel 0 ≡ some (ok r)
  wait_for_receipt_lem n fuel r h p e =
      wait_from n fuel 0 r h p (subst (λ j. receipts j ≡ some r) (omega arith) e)
