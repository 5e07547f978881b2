-- ===== src/Examples/Setting.antt =====
-- A small world in which the API runs: a chain that counts its calls, a directory that lists its files,
-- an in-memory store and a codec that copies the body into every field.
use railway.Base.{ℕ, ◌+◌, ◌*◌, ◌==◌, true, List, [], ◌∷◌, ◌++◌, some, none, if◌then◌else◌}
use railway.Base.Int.{pos, ◌+ℤ◌, ◌-ℤ◌, ◌*ℤ◌, mul64, wrap64}
use railway.Base.Result.{ok, err}
use railway.Text.{
  Text, codes, is_empty, text_eq, trim_space, parse_int, to_lower, contains, is_digit, digits_value,
}
use railway.Text.Hex.{hex}
use railway.Text.Print.{print_int}
use railway.FilePath.{elements, enter, resolve, clean, join, up_to_slash, dir}
use railway.Time
use railway.Http.{Request, reader, header_get, http_error, json_response}
use railway.Config.{AppConfig, ServiceConfig, RetryConfig, SeedConfig}
use railway.Hmac.{read_body, is_stale, compute_signature, verify, middleware}
use railway.Idempotency.Map.{lookup, insert}
use railway.Idempotency.Memory
use railway.Idempotency.Memory.{memory_store, MemoryStore}
use railway.Escrow.{Client}
use railway.Server.Defs.{Parts, FileSystem, Codec, Readings, State, MpesaCallbackRequest}
use railway.Server.Retry.{is_retryable, sleep_of, next_backoff, retry_loop, execute_mint_with_retry}
use railway.Server.Dlq.{current_dlq_depth, update_dlq_depth, write_dlq, file_name}
use railway.Server.Mint.{
  validate_mint_intent_request, mint_key, mint_after_lookup, handle_mint_intents,
}
use railway.Server.Callback.{validate_mpesa_request, callback_after_lookup, handle_mpesa_callback}
use railway.Server.Health.{handle_health}
use railway.Server.Serve.{Arrival, with_request_id, header_set, Outside, route, serve, serve_all}

-- The definitions that a test computes with.
unfoldable pub code : ℕ
unfolding elements enter resolve clean join up_to_slash dir codes text_eq trim_space parse_int
    to_lower contains is_digit digits_value hex print_int Time.sub Time.unix ◌+ℤ◌ ◌-ℤ◌ ◌*ℤ◌ mul64
    wrap64 header_get http_error json_response read_body is_stale compute_signature verify
    middleware lookup insert Memory.get Memory.save is_retryable sleep_of next_backoff retry_loop
    execute_mint_with_retry current_dlq_depth update_dlq_depth write_dlq file_name
    validate_mint_intent_request mint_key mint_after_lookup handle_mint_intents
    validate_mpesa_request callback_after_lookup handle_mpesa_callback handle_health with_request_id
    header_set route serve serve_all
code = 0

-- Every call but the first succeeds.
abbrev pub counting_client : Client
counting_client = record {
  Chain = ℕ;
  submit_intent = λ req n. (ok (record { intent_id = req.tx_ref; tx_hash = [] }), n + 1);
  execute_mint = λ intent n.
      if n == 0
      then (err (codes "network error"), n + 1)
      else (ok (record { tx_hash = codes "0xhash" }), n + 1);
}

abbrev pub listed_files : FileSystem
listed_files = record {
  Files = List Text;
  mkdir_all = λ path files. (ok tt, files);
  write_file = λ path blob files. (ok tt, path ∷ files);
  read_dir = λ path files. ok files;
}

abbrev pub copying_codec : Codec
copying_codec = record {
  decode_mint_intent = λ s.
      if is_empty s
      then none
      else some (record { user_address = s; amount = s; country_code = s; tx_ref = s });
  decode_mpesa_callback = λ s.
      if is_empty s
      then none
      else some (record { intent_id = s; tx_ref = s; user_address = s; amount = s });
  encode_mint_intent = λ r. r.intent_id ++ r.status;
  encode_mpesa_callback = λ r. r.status ++ r.tx_hash;
  encode_dlq_entry = λ t payload e. ok e;
}

abbrev pub parts : Parts
parts = record {
  store = memory_store;
  client = counting_client;
  files = listed_files;
  codec = copying_codec;
}

abbrev pub outside : Outside
outside = record {
  mac = λ key message. key ++ message;
  encode_health = λ r. r.status;
  metrics_page = λ r calls. json_response 200 [];
  not_found = λ r. http_error (codes "404 page not found") 404;
}

abbrev pub retry : RetryConfig
retry = record {
  max_attempts = pos 6;
  initial_backoff = pos 751000000;
  max_backoff = pos 30000000000;
  backoff_multiplier = pos 2;
}

abbrev pub service : ServiceConfig
service = record {
  http_port = pos 3000;
  hmac_clock_skew = pos 60000000000;
  idempotency_window = pos 86400000000000;
  idempotency_store_path = codes "/tmp/idem.json";
  dlq_path = codes "dlq";
}

abbrev pub seed : SeedConfig
seed = record {
  candidate_id = [];
  chain = record { chain_id = pos 31430; rpc_url = []; block_time = pos 2 };
  tokens = record {
    stablecoin = record { symbol = []; name = []; decimals = pos 18 };
    country = record { symbol = []; name = []; country_code = []; decimals = pos 18 };
  };
  secrets = record {
    hmac_salt = codes "s";
    idempotency_key_salt = [];
    mpesa_webhook_secret = codes "m";
  };
  compliance = record {
    max_risk_score = pos 91;
    require_attestation = true;
    min_attestation_age = pos 0;
  };
  limits = record { min_mint_amount = []; max_mint_amount = []; daily_mint_limit = [] };
  retry = record {
    max_attempts = pos 6;
    initial_backoff_ms = pos 751;
    max_backoff_ms = pos 30000;
    backoff_multiplier = pos 2;
  };
  timeouts = record {
    rpc_timeout_ms = pos 20109;
    webhook_timeout_ms = pos 3038;
    idempotency_window_secs = pos 86400;
  };
}

abbrev pub config : AppConfig
config = record {
  seed = seed;
  deployment = record {
    chain_id = pos 31430;
    deployer = [];
    admin = [];
    executor = [];
    contracts = record {
      usd_stablecoin = [];
      country_token = [];
      user_registry = [];
      compliance_manager = [];
      mint_escrow = [];
    };
  };
  service = service;
  retry = retry;
  chain = record { rpc_url = []; private_key = [] };
  database = record { url = [] };
}

abbrev pub start : State parts
start = record {
  records = record { entries = [] };
  chain = 0;
  files = [];
  metrics = [];
  slept = [];
}

-- All readings of the clock at one time, in seconds, and a context that does not end.
abbrev pub readings_at : ℕ → Readings
readings_at t =
    let now = pos (t * 1000000000) in
    record { lookup = now; created = now; expires = now; stamp = now; file_name = now }

abbrev pub at : ℕ → Arrival
at t = record {
  request_id = pos 7;
  clock = pos (t * 1000000000);
  readings = readings_at t;
  cancelled = λ i d. none;
  checks = record { rpc = none; latency_us = pos 0; database = none };
}

-- A signed mint request with an idempotency key, at second 100.
abbrev pub mint_request : Text → Text → Request
mint_request key body = record {
  method = codes "POST";
  path = codes "/api/v1/mint-intents";
  headers =
      (codes "X-Idempotency-Key", key)
      ∷ (codes "X-Request-Timestamp", codes "100")
      ∷ (codes "X-Request-Signature", hex (codes "s" ++ (codes "100" ++ body)))
      ∷ [];
  body = reader body;
}

-- A signed callback, at second 100.
abbrev pub callback_request : Text → Request
callback_request body = record {
  method = codes "POST";
  path = codes "/api/v1/callbacks/mpesa";
  headers =
      (codes "X-Request-Timestamp", codes "100")
      ∷ (codes "X-Mpesa-Signature", hex (codes "m" ++ (codes "100" ++ body)))
      ∷ [];
  body = reader body;
}

-- The payment that a callback with this body is for.
abbrev pub payment : Text → MpesaCallbackRequest
payment body = record { intent_id = body; tx_ref = body; user_address = body; amount = body }
