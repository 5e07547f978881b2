-- ===== src/Escrow/Eth/Connect.antt =====
-- What NewEthClient makes.
use railway.Base.{◌≡◌, refl, true, some, Bool-cases, inl, inr}
use railway.Base.Result.{Result, ok, ◌>>=◌, AllOk, AllOk-bind}
use railway.Text.{codes, is_empty}
use railway.Escrow.Eth.{
  Geth, EthClient, EthClientConfig, parse_private_key, wrapped, new_eth_client,
}

module _ (g : Geth) where
  -- The client can send transactions to the configured contract, and asks a node.
  abbrev pub IsConnected : EthClientConfig → EthClient g → Type 0
  IsConnected cfg c =
      (opts : g.Opts) × (c.transacts ≡ some opts)
      × (c.address ≡ g.hex_to_address cfg.contract_mint_escrow)
      × (c.has_client ≡ true)

  IsConnected-bind :
      {A : Type 0} (cfg : EthClientConfig) (x : Result A) (f : A → Result (EthClient g × g.Node))
      → ((a : A) → x ≡ ok a → AllOk (λ t. IsConnected cfg t.0) (f a))
      → AllOk (λ t. IsConnected cfg t.0) (x >>= f)
  IsConnected-bind cfg x f h = AllOk-bind (λ t. IsConnected cfg t.0) x f h

  pub new_eth_client-IsConnected :
      (cfg : EthClientConfig) → AllOk (λ t. IsConnected cfg t.0) (new_eth_client g cfg)
  unfolding new_eth_client
  new_eth_client-IsConnected cfg = elim (Bool-cases (is_empty cfg.rpc_url)) [
    | inl no_url ↦ rw no_url tt
    | inr url ↦ elim (Bool-cases (is_empty cfg.contract_mint_escrow)) [
      | inl no_contract ↦ rw (url, no_contract) tt
      | inr contract ↦ elim (Bool-cases (is_empty cfg.private_key_hex)) [
        | inl no_key ↦
            rw (url, contract, no_key)
              (IsConnected-bind cfg (wrapped (codes "dial rpc: ") (g.dial cfg.rpc_url)) _
                (λ node dialled.
                  IsConnected-bind cfg (wrapped (codes "parse abi: ") g.parse_abi) _
                    (λ abi parsed. tt)))
        | inr key ↦
            rw (url, contract, key)
              (IsConnected-bind cfg (wrapped (codes "dial rpc: ") (g.dial cfg.rpc_url)) _
                (λ node dialled.
                  IsConnected-bind cfg (wrapped (codes "parse abi: ") g.parse_abi) _ (λ abi parsed.
                    IsConnected-bind cfg (parse_private_key g cfg.private_key_hex) _ (λ k read.
                      IsConnected-bind cfg (wrapped (codes "fetch chain id: ") (g.chain_id node)) _
                        (λ id fetched.
                          IsConnected-bind cfg (wrapped (codes "transactor: ") (g.transactor k id))
                            _ (λ opts made. (opts, refl, refl, refl)))))))
      ]
    ]
  ]
