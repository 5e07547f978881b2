-- ===== src/Escrow/Eth.antt =====
-- api/internal/escrow/eth_client.go. go-ethereum is an interface.
pub mod Bytes
pub mod Connect
pub mod Laws
use railway.Base.{
  ℕ, not, ◌&&◌, Bool, true, Option, none, some, [], ◌++◌, ◌==◌, length, if◌then◌else◌,
}
use railway.Base.Int.{ℤ}
use railway.Base.Result.{Result, ok, err, ◌>>=◌}
use railway.Text.{
  Text, codes, is_empty, has_prefix, trim_prefix, trim_space, set_string_10, text_eq,
}
use railway.Escrow.Defs.{SubmitIntentRequest, SubmitIntentResponse, ExecuteMintResponse, Client}
use Bytes.{to_bytes32, natural_bytes, magnitude}

-- The arguments of contract.Transact: the method of MintEscrow and its arguments.
pub data Call : Type 0 where
  submit_intent_call : ℤ → Text → Text → Call
  execute_mint_call : Text → Call

-- The parts of go-ethereum that the client uses. `transact` gives the hash of the transaction; a node
-- is a connection and the chain behind it.
pub record Geth : Type 1 where
  pub Node : Type 0
  pub Abi : Type 0
  pub Key : Type 0
  pub Opts : Type 0
  pub dial : Text → Result Node
  pub parse_abi : Result Abi
  pub chain_id : Node → Result ℤ
  pub hex_to_ecdsa : Text → Result Key
  pub transactor : Key → ℤ → Result Opts
  pub transact : Opts → Text → Call → Node → Result Text × Node
  pub block_number : Node → Result ℤ
  pub is_hex_address : Text → Bool
  pub hex_to_address : Text → Text
  pub left_pad_bytes : Text → ℕ → Text
  pub keccak256 : Text → Text
  pub hex_to_hash : Text → Text
  pub hash_hex : Text → Text

-- `none` is nil. The node is the state of the client's calls.
pub record EthClient (g : Geth) : Type 0 where
  pub has_client : Bool
  pub address : Text
  pub abi : Option g.Abi
  pub chain_id : Option ℤ
  pub transacts : Option g.Opts

pub record EthClientConfig : Type 0 where
  pub rpc_url : Text
  pub private_key_hex : Text
  pub contract_mint_escrow : Text

-- An error with the text that fmt.Errorf puts before it.
abbrev wrapped {ℓ} : {A : Type ℓ} → Text → Result A → Result A
wrapped prefix (ok a) = ok a
wrapped prefix (err e) = err (prefix ++ e)

-- The error, or `none` for nil.
unfoldable pub validate_submit_request : (g : Geth) → SubmitIntentRequest → Option Text
validate_submit_request g req =
    if not (g.is_hex_address req.user_address)
    then some (codes "invalid user address")
    else if is_empty (trim_space req.amount)
    then some (codes "amount required")
    else if is_empty (trim_space req.country_code)
    then some (codes "country code required")
    else if is_empty (trim_space req.tx_ref)
    then some (codes "txRef required")
    else none

module _ (g : Geth) where
  unfoldable pub parse_private_key : Text → Result g.Key
  parse_private_key hex_key =
      wrapped (codes "parse private key: ") (g.hex_to_ecdsa (trim_prefix hex_key (codes "0x")))

  unfoldable pub new_eth_client : EthClientConfig → Result (EthClient g × g.Node)
  new_eth_client cfg =
      if is_empty cfg.rpc_url
      then err (codes "rpc url is required")
      else if is_empty cfg.contract_mint_escrow
      then err (codes "mint escrow address is required")
      else wrapped (codes "dial rpc: ") (g.dial cfg.rpc_url) >>= λ node.
          wrapped (codes "parse abi: ") g.parse_abi >>= λ abi.
          if is_empty cfg.private_key_hex
          then err (codes "private key is required for submitting intents")
          else parse_private_key cfg.private_key_hex >>= λ key.
              wrapped (codes "fetch chain id: ") (g.chain_id node) >>= λ id.
              wrapped (codes "transactor: ") (g.transactor key id) >>= λ opts. ok (
                record {
                  has_client = true;
                  address = g.hex_to_address cfg.contract_mint_escrow;
                  abi = some abi;
                  chain_id = some id;
                  transacts = some opts;
                },
                node,
              )

  -- What Keccak256Hash hashes for an amount.
  abbrev pub intent_preimage : Text → ℤ → Text → Text → Text
  intent_preimage address amount country tx_ref =
      address ++ (g.left_pad_bytes (natural_bytes (magnitude amount)) 32 ++ (country ++ tx_ref))

  abbrev intent_id_of : SubmitIntentRequest → Option ℤ → Result Text
  intent_id_of req none = err (codes "invalid amount " ++ req.amount)
  intent_id_of req (some amount) = ok (
      g.hash_hex (
        g.keccak256 (
          intent_preimage (g.hex_to_address req.user_address) amount (to_bytes32 req.country_code)
            (to_bytes32 req.tx_ref))))

  unfoldable pub compute_intent_id : SubmitIntentRequest → Result Text
  compute_intent_id req = intent_id_of req (set_string_10 req.amount)

  module _ (c : EthClient g) where
    abbrev pub submitted :
        SubmitIntentRequest → Result Text × g.Node → Result SubmitIntentResponse × g.Node
    submitted req (err e, node) = (err (codes "submit intent tx: " ++ e), node)
    submitted req (ok hash, node) = (
      compute_intent_id req >>= λ id. ok (record { intent_id = id; tx_hash = g.hash_hex hash }),
      node,
    )

    abbrev pub submit_amount :
        g.Opts → SubmitIntentRequest → Option ℤ → g.Node → Result SubmitIntentResponse × g.Node
    submit_amount opts req none node = (err (codes "invalid amount: " ++ req.amount), node)
    submit_amount opts req (some amount) node = submitted req (
        g.transact opts c.address
          (submit_intent_call amount (to_bytes32 req.country_code) (to_bytes32 req.tx_ref)) node)

    abbrev pub submit_checked :
        g.Opts → SubmitIntentRequest → Option Text → g.Node → Result SubmitIntentResponse × g.Node
    submit_checked opts req (some e) node = (err e, node)
    submit_checked opts req none node = submit_amount opts req (set_string_10 req.amount) node

    abbrev pub submit_with :
        Option g.Opts → SubmitIntentRequest → g.Node → Result SubmitIntentResponse × g.Node
    submit_with none req node = (err (codes "client is read-only"), node)
    submit_with (some opts) req node = submit_checked opts req (validate_submit_request g req) node

    unfoldable pub submit_intent :
        SubmitIntentRequest → g.Node → Result SubmitIntentResponse × g.Node
    submit_intent req node = submit_with c.transacts req node

    abbrev pub executed : Result Text × g.Node → Result ExecuteMintResponse × g.Node
    executed (err e, node) = (err (codes "execute mint tx: " ++ e), node)
    executed (ok hash, node) = (ok (record { tx_hash = g.hash_hex hash }), node)

    -- A hash is written as 0x and 64 digits.
    abbrev pub is_intent_id : Text → Bool
    is_intent_id id = length id == 66 && has_prefix id (codes "0x")

    abbrev pub execute_with : Option g.Opts → Text → g.Node → Result ExecuteMintResponse × g.Node
    execute_with none id node = (err (codes "client is read-only"), node)
    execute_with (some opts) id node =
        if is_intent_id id
        then executed (g.transact opts c.address (execute_mint_call (g.hex_to_hash id)) node)
        else (err (codes "invalid intent id"), node)

    unfoldable pub execute_mint : Text → g.Node → Result ExecuteMintResponse × g.Node
    execute_mint id node = execute_with c.transacts id node

    abbrev checked : Result ℤ → Result (Unit {0})
    checked (ok n) = ok tt
    checked (err e) = err e

    unfoldable pub ping : g.Node → Result (Unit {0})
    ping node =
        if c.has_client
        then checked (g.block_number node)
        else err (codes "rpc client not configured")

    abbrev pub eth_client : Client
    eth_client = record {
      Chain = g.Node;
      submit_intent = submit_intent;
      execute_mint = execute_mint;
    }
