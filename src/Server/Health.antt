-- ===== src/Server/Health.antt =====
-- handleHealth of api/internal/server/server.go.
pub mod Laws
use railway.Base.{
  ℕ, Bool, true, false, ◌&&◌, Option, none, some, [], ◌∷◌, ◌++◌, ◌≡◌, refl, ◌↔◌, ◌≢◌, arith,
  if◌then◌else◌,
}
use railway.Base.Int.{ℤ, pos}
use railway.Base.Result.{Result, ok, err}
use railway.Text.{Text, codes}
use railway.Http.{Response, json_response}
use railway.Config.{ServiceConfig}
use railway.Server.Defs.{Parts, State, set_dlq_depth}
use railway.Server.Dlq.{current_dlq_depth, update_dlq_depth}

-- The latency in microseconds: the code's field is this number, divided by 1000.0 as a float64.
pub record RpcInfo : Type 0 where
  pub connected : Bool
  pub latency_us : ℤ
  pub error : Text

pub record DbInfo : Type 0 where
  pub connected : Bool
  pub error : Text

pub record HealthReply : Type 0 where
  pub status : Text
  pub rpc : RpcInfo
  pub database : DbInfo
  pub queue_depth : ℕ

-- What a health function returns in a call, `none` where there is no function, and how long the
-- call of rpcHealthFn takes.
pub record Checks : Type 0 where
  pub rpc : Option (Result (Unit {0}))
  pub latency_us : ℤ
  pub database : Option (Result (Unit {0}))

abbrev rpc_info : ℤ → Option (Result (Unit {0})) → RpcInfo
rpc_info latency none = record { connected = true; latency_us = pos 0; error = [] }
rpc_info latency (some (ok _)) = record { connected = true; latency_us = latency; error = [] }
rpc_info latency (some (err e)) = record { connected = false; latency_us = pos 0; error = e }

abbrev db_info : Option (Result (Unit {0})) → DbInfo
db_info (some (err e)) = record { connected = false; error = e }
db_info _ = record { connected = true; error = [] }

-- Whether a check leaves overallHealthy as it is.
abbrev is_healthy : Option (Result (Unit {0})) → Bool
is_healthy (some (err e)) = false
is_healthy _ = true

-- `encode` is json.Encoder's encoding of the reply, without the line feed that it adds.
module _ (p : Parts) (cfg : ServiceConfig) (encode : HealthReply → Text) where
  abbrev pub health_reply : Checks → ℕ → HealthReply
  health_reply checks depth = record {
    status =
        if is_healthy checks.rpc && is_healthy checks.database
        then codes "healthy"
        else codes "degraded";
    rpc = rpc_info checks.latency_us checks.rpc;
    database = db_info checks.database;
    queue_depth = depth;
  }

  unfoldable pub handle_health : Checks → State p → Response × State p
  handle_health checks s =
      let updated = update_dlq_depth p cfg s in
      (
        json_response (if is_healthy checks.rpc && is_healthy checks.database then 200 else 503)
            (encode (health_reply checks updated.0) ++ 10 ∷ []),
        updated.1,
      )
