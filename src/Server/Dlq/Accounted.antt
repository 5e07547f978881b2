-- ===== src/Server/Dlq/Accounted.antt =====
-- The account of a dead letter.
use railway.Base.{refl, inl, inr, Bool-cases}
use railway.Base.Result.{Result, ok, err}
use railway.Text.{Text, is_empty}
use railway.Config.{ServiceConfig}
use railway.Server.Defs.{MpesaCallbackRequest, set_dlq_depth, Parts, State, Readings}
use railway.Server.Dlq.{current_dlq_depth, update_dlq_depth, write_dlq, made, encoded, file_path}
use railway.Server.Accounts.{IsAccounted, unchanged, followed, noted}

module _ (p : Parts) (cfg : ServiceConfig) where
  pub update_dlq_depth-IsAccounted : (s : State p) → IsAccounted p s (update_dlq_depth p cfg s).1
  unfolding update_dlq_depth
  update_dlq_depth-IsAccounted s = noted p (set_dlq_depth (current_dlq_depth p cfg s)) s refl refl

  made-IsAccounted :
      (now : Readings) (payload : MpesaCallbackRequest) (blob : Text) (result : Result (Unit {0}))
      (s : State p)
      → IsAccounted p s (made p cfg now payload blob result s)
  made-IsAccounted now payload blob (err e) s = unchanged p s s refl refl
  made-IsAccounted now payload blob (ok done) s =
      followed p s
        (record s {
          files =
              (p.files.write_file (file_path p cfg now.file_name payload.tx_ref) blob s.files).1;
        })
        _ (unchanged p _ _ refl refl) (update_dlq_depth-IsAccounted _)

  encoded-IsAccounted :
      (now : Readings) (payload : MpesaCallbackRequest) (blob : Result Text) (s : State p)
      → IsAccounted p s (encoded p cfg now payload blob s)
  encoded-IsAccounted now payload (err e) s = unchanged p s s refl refl
  encoded-IsAccounted now payload (ok blob) s =
      followed p s (record s { files = (p.files.mkdir_all cfg.dlq_path s.files).1 }) _
        (unchanged p _ _ refl refl) (made-IsAccounted now payload blob _ _)

  pub write_dlq-IsAccounted :
      (now : Readings) (payload : MpesaCallbackRequest) (e : Text) (s : State p)
      → IsAccounted p s (write_dlq p cfg now payload e s)
  unfolding write_dlq
  write_dlq-IsAccounted now payload e s = elim (Bool-cases (is_empty cfg.dlq_path)) [
    | inl off ↦ rw off (unchanged p s s refl refl)
    | inr on ↦ rw on (encoded-IsAccounted now payload _ s)
  ]
