-- ===== src/Server/Retry/Malformed.antt =====
-- The retries of an intent id that the Ethereum client refuses.
use railway.Base.{ℕ, suc, ◌≡◌, refl, Option, some, false, ◌∷◌}
use railway.Base.Int.{ℤ}
use railway.Base.Result.{err}
use railway.Text.{Text, codes, contains, to_lower}
use railway.Config.{RetryConfig}
use railway.Idempotency.{Store}
use railway.Escrow.Eth.{Geth, EthClient, eth_client, is_intent_id}
use railway.Escrow.Eth.Laws.{execute_mint_malformed}
use railway.Server.Defs.{Parts, State, FileSystem, Codec, inc_retry}
use railway.Server.Retry.{is_retryable, backoff_of, retry_loop, execute_mint_with_retry}
use railway.Server.Retry.Laws.{attempts-suc}

invalid-not_retryable : is_retryable (codes "invalid intent id") ≡ false
unfolding is_retryable codes contains to_lower
invalid-not_retryable = refl

-- The server's parts with the Ethereum client.
abbrev pub eth_parts : Store → (g : Geth) → EthClient g → FileSystem → Codec → Parts
eth_parts store g c files codec = record {
  store = store;
  client = eth_client g c;
  files = files;
  codec = codec;
}

module _ (store : Store) (g : Geth) (c : EthClient g) (files : FileSystem) (codec : Codec)
    (cfg : RetryConfig) (cancelled : ℕ → ℤ → Option Text) where
  retry_loop_malformed :
      (rounds i : ℕ) (backoff : ℤ) (opts : g.Opts) (id : Text)
      (s : State (eth_parts store g c files codec))
      → c.transacts ≡ some opts
      → is_intent_id g c id ≡ false
      → retry_loop (eth_parts store g c files codec) cfg cancelled id (suc rounds) i backoff s ≡ (
        err (codes "invalid intent id"),
        record s { metrics = inc_retry (codes "failed") ∷ s.metrics },
      )
  unfolding retry_loop
  retry_loop_malformed rounds i backoff opts id s can bad =
      let refused = execute_mint_malformed g c opts id s.chain can bad in
      rw (refused, invalid-not_retryable, retry_loop)
        (λ i. (
          err (codes "invalid intent id"),
          record s { chain = (refused i).1; metrics = inc_retry (codes "failed") ∷ s.metrics },
        ))

  -- With the Ethereum client, a callback whose intent id is not 0x and 64 more bytes is tried once,
  -- however many attempts are configured: nothing is sent and there is no wait.
  pub execute_mint_with_retry_malformed :
      (opts : g.Opts) (id : Text) (s : State (eth_parts store g c files codec))
      → c.transacts ≡ some opts
      → is_intent_id g c id ≡ false
      → execute_mint_with_retry (eth_parts store g c files codec) cfg cancelled id s ≡ (
        err (codes "invalid intent id"),
        record s { metrics = inc_retry (codes "failed") ∷ s.metrics },
      )
  unfolding execute_mint_with_retry
  execute_mint_with_retry_malformed opts id s can bad =
      let (n, e) = attempts-suc cfg in
      rw e (retry_loop_malformed n 1 (backoff_of cfg) opts id s can bad)
