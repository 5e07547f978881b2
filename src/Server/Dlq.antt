-- ===== src/Server/Dlq.antt =====
-- writeDLQ, updateDLQDepth and currentDLQDepth of api/internal/server/server.go. The queue is a
-- directory with a file for each entry. Lines that go to the log are left out.
pub mod Laws
pub mod Accounted
pub mod Paths
use railway.FilePath.{join}
use railway.Base.{ℕ, List, ◌++◌, length, if◌then◌else◌}
use railway.Base.Int.{ℤ}
use railway.Base.Result.{Result, ok, err}
use railway.Text.{Text, codes, is_empty}
use railway.Text.Print.{print_int}
use railway.Config.{ServiceConfig}
use railway.Server.Defs.{MpesaCallbackRequest, set_dlq_depth, Parts, State, count_metric, Readings}

-- <nanoseconds>-<txRef>.json
unfoldable pub file_name : ℤ → Text → Text
file_name now tx_ref = print_int now ++ (codes "-" ++ (tx_ref ++ codes ".json"))

module _ (p : Parts) (cfg : ServiceConfig) where
  abbrev depth_of : Result (List Text) → ℕ
  depth_of (err e) = 0
  depth_of (ok entries) = length entries

  unfoldable pub current_dlq_depth : State p → ℕ
  current_dlq_depth s =
      if is_empty cfg.dlq_path then 0 else depth_of (p.files.read_dir cfg.dlq_path s.files)

  -- The depth, and the state with the gauge set to it.
  unfoldable pub update_dlq_depth : State p → ℕ × State p
  update_dlq_depth s =
      let depth = current_dlq_depth s in (depth, count_metric (set_dlq_depth depth) s)

  abbrev pub file_path : ℤ → Text → Text
  file_path now tx_ref = join cfg.dlq_path (file_name now tx_ref)

  abbrev made : Readings → MpesaCallbackRequest → Text → Result (Unit {0}) → State p → State p
  made now payload blob (err e) s = s
  made now payload blob (ok _) s =
      let written = p.files.write_file (file_path now.file_name payload.tx_ref) blob s.files in
      (update_dlq_depth (record s { files = written.1 })).1

  abbrev encoded : Readings → MpesaCallbackRequest → Result Text → State p → State p
  encoded now payload (err e) s = s
  encoded now payload (ok blob) s =
      let dir = p.files.mkdir_all cfg.dlq_path s.files in
      made now payload blob dir.0 (record s { files = dir.1 })

  unfoldable pub write_dlq : Readings → MpesaCallbackRequest → Text → State p → State p
  write_dlq now payload e s =
      if is_empty cfg.dlq_path
      then s
      else encoded now payload (p.codec.encode_dlq_entry now.stamp payload e) s
