-- ===== src/Server/Defs.antt =====
-- The state of the server of api/internal/server/server.go, what it is built from, and the requests
-- and responses of its endpoints.
use railway.Base.{ℕ, Option, none, List, [], ◌∷◌}
use railway.Base.Int.{ℤ}
use railway.Base.Result.{Result, ok, err}
use railway.Text.{Text, codes}
use railway.Http.{Body, no_body, reader, broken}
use railway.Idempotency.{Record, Store}
use railway.Escrow.{Client}

pub record MintIntentRequest : Type 0 where
  pub user_address : Text
  pub amount : Text
  pub country_code : Text
  pub tx_ref : Text

pub record MintIntentResponse : Type 0 where
  pub intent_id : Text
  pub status : Text
  pub tx_hash : Text

pub record MpesaCallbackRequest : Type 0 where
  pub intent_id : Text
  pub tx_ref : Text
  pub user_address : Text
  pub amount : Text

pub record MpesaCallbackResponse : Type 0 where
  pub status : Text
  pub intent_id : Text
  pub tx_hash : Text

abbrev pub mpesa_key_prefix : Text
mpesa_key_prefix = codes "mpesa:"

-- A call of metrics.go: it hands its argument to a counter or to the gauge of the registry.
pub data MetricCall : Type 0 where
  inc_mint inc_callback inc_retry : Text → MetricCall
  set_dlq_depth : ℕ → MetricCall

-- The part of package os that the dead-letter queue uses.
pub record FileSystem : Type 1 where
  pub Files : Type 0
  pub mkdir_all : Text → Files → Result (Unit {0}) × Files
  pub write_file : Text → Text → Files → Result (Unit {0}) × Files
  pub read_dir : Text → Files → Result (List Text)

-- encoding/json at the types of the server; `none` is an error of Decode.
pub record Codec : Type 0 where
  pub decode_mint_intent : Text → Option MintIntentRequest
  pub decode_mpesa_callback : Text → Option MpesaCallbackRequest
  pub encode_mint_intent : MintIntentResponse → Text
  pub encode_mpesa_callback : MpesaCallbackResponse → Text
  pub encode_dlq_entry : ℤ → MpesaCallbackRequest → Text → Result Text

-- What the server is built from.
pub record Parts : Type 1 where
  pub store : Store
  pub client : Client
  pub files : FileSystem
  pub codec : Codec

-- What the handlers read and write. `metrics` are the calls made on the registry and `slept` the
-- arguments of time.After, both with the newest first.
pub record State (p : Parts) : Type 0 where
  pub records : p.store.State
  pub chain : p.client.Chain
  pub files : p.files.Files
  pub metrics : List MetricCall
  pub slept : List ℤ

abbrev pub count_metric : {p : Parts} → MetricCall → State p → State p
count_metric c s = record s { metrics = c ∷ s.metrics }

-- What time.Now() returns at each place of a handler that calls it: in the store's Get, for
-- CreatedAt, for ExpiresAt, and for the stamp and the file name of a dead letter.
pub record Readings : Type 0 where
  pub lookup : ℤ
  pub created : ℤ
  pub expires : ℤ
  pub stamp : ℤ
  pub file_name : ℤ

-- What json.NewDecoder reads of a body: a nil body and a server's empty one hold no value.
abbrev pub body_text : Body → Text
body_text no_body = []
body_text (reader s) = s
body_text (broken e) = []

-- `existing, _ := store.Get(…)`: the record, nil where there is an error.
abbrev pub existing : Result (Option Record) → Option Record
existing (ok found) = found
existing (err e) = none
