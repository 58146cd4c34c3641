-- ===== src/Host.antt =====
-- App/App.cpp: the ocalls by which the enclave reads and writes the file "account". A stream that
-- is opened for reading and writing is not truncated, so a shorter text leaves the old tail.
pub mod Refused
use seccap_sgx_bank.Base.{
  ℕ, true, false, none, some, [], ◌++◌, ltb, if◌then◌else◌, length, take, drop, replicate, Bytes,
}
use seccap_sgx_bank.World.{
  M, exit_failure, ◌>>=◌, ◌>>◌, pure, halt, gets, modify, print, when, write_open_failed,
  write_execute_failed, read_account_failed, read_account_file_failed, open_account_failed,
}

-- `text` written from the start of a file that holds `old`
unfoldable pub write_over : Bytes → Bytes → Bytes
write_over text old = text ++ drop (length text) old

-- `ofs.write` on the opened file, and the test behind it. A text for which there is room may stay in
-- the stream's buffer, so that a failure of the disk is not seen here.
write_account : M (Unit {0})
write_account = do
  can ← gets (λ w. w.io.write_succeeds)
  elim can [
    | true ↦ pure tt
    | false ↦ do
      modify (λ w. record w { file = some w.io.after_failed_write })
      print write_execute_failed
      halt exit_failure
  ]

-- `ofs.close()`, by which the text is in the file, or not: nothing tests it.
close_account : Bytes → Bytes → M (Unit {0})
unfolding write_over
close_account text old = do
  closed ← gets (λ w. w.io.close_succeeds)
  elim closed [
    | true ↦ modify (λ w. record w { file = some (write_over text old) })
    | false ↦ modify (λ w. record w { file = some w.io.after_failed_write })
  ]

-- `ocallAccountListStore`: a file that is missing is not created by this mode.
unfoldable pub ocall_account_list_store : Bytes → M (Unit {0})
unfolding write_account close_account
ocall_account_list_store text = do
  w ← gets (λ w. w)
  if w.io.can_write
      then elim w.file [
        | none ↦ (do print write_open_failed; halt exit_failure)
        | some old ↦ do write_account; close_account text old
      ]
      else (do print write_open_failed; halt exit_failure)

-- `ocallGetSealedAccountListSize`; the [out] argument is 0 before the call.
unfoldable pub ocall_get_sealed_account_list_size : M ℕ
ocall_get_sealed_account_list_size = do
  w ← gets (λ w. w)
  elim w.file [
    | none ↦ (do print read_account_failed; halt exit_failure)
    | some bytes ↦
        if w.io.can_read
        then pure (if w.io.can_seek then length bytes else 0)
        else (do print read_account_failed; halt exit_failure)
  ]

-- `ocallGetSealedAccountList`: the buffer of `size` bytes after the read, zeros where the file was
-- too short.
unfoldable pub ocall_get_sealed_account_list : ℕ → M Bytes
ocall_get_sealed_account_list size = do
  w ← gets (λ w. w)
  if ltb 0 size
      then elim w.file [
        | none ↦ (do print open_account_failed; halt exit_failure)
        | some bytes ↦
            if w.io.can_read
            then (do
              when (ltb (length bytes) size) (print read_account_file_failed)
              pure (take size (bytes ++ replicate size 0)))
            else (do print open_account_failed; halt exit_failure)
      ]
      else pure []
