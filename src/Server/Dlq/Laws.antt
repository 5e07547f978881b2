-- ===== src/Server/Dlq/Laws.antt =====
-- What a dead letter writes, and what it leaves alone.
use railway.Base.{◌≡◌, ◌≢◌, [], arith, Option, some}
use railway.Base.Result.{ok}
use railway.Text.{Text, is_empty_of_ne}
use railway.Config.{ServiceConfig}
use railway.Server.Defs.{FileSystem, MpesaCallbackRequest, Parts, State, Readings}
use railway.Server.Dlq.{update_dlq_depth, file_path, write_dlq}

-- What the dead letters rely on: a file that os.WriteFile has written without an error has the data.
pub record KeepsFiles (fs : FileSystem) : Type 0 where
  pub contents : Text → fs.Files → Option Text
  pub contents-write_file :
      (path blob : Text) (f : fs.Files)
      → (fs.write_file path blob f).0 ≡ ok tt
      → contents path (fs.write_file path blob f).1 ≡ some blob

module _ (p : Parts) (cfg : ServiceConfig) where
  pub write_dlq_frame :
      (now : Readings) (payload : MpesaCallbackRequest) (e : Text) (s : State p)
      → ((write_dlq p cfg now payload e s).records ≡ s.records)
        × ((write_dlq p cfg now payload e s).chain ≡ s.chain)
  unfolding write_dlq update_dlq_depth
  write_dlq_frame now payload e s = ground arith

  -- With a queue directory, an entry that can be encoded and a file system that reports no errors, the
  -- entry is what is then read at the path of its file.
  pub write_dlq_lem :
      (keeps : KeepsFiles p.files) (now : Readings) (payload : MpesaCallbackRequest) (e blob : Text)
      (s : State p)
      → cfg.dlq_path ≢ []
      → p.codec.encode_dlq_entry now.stamp payload e ≡ ok blob
      → (p.files.mkdir_all cfg.dlq_path s.files).0 ≡ ok tt
      → (p.files.write_file
          (file_path p cfg now.file_name payload.tx_ref)
          blob
          (p.files.mkdir_all cfg.dlq_path s.files).1).0
        ≡ ok tt
      → keeps.contents
          (file_path p cfg now.file_name payload.tx_ref)
          (write_dlq p cfg now payload e s).files
        ≡ some blob
  unfolding write_dlq update_dlq_depth
  write_dlq_lem keeps now payload e blob s path encoded made written =
      rw (is_empty_of_ne cfg.dlq_path path, encoded, made)
        (keeps.contents-write_file (file_path p cfg now.file_name payload.tx_ref) blob
          (p.files.mkdir_all cfg.dlq_path s.files).1 written)
