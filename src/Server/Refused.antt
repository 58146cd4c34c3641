-- ===== src/Server/Refused.antt =====
-- While the host cannot write the file, the server leaves it so.
use seccap_sgx_bank.Base.{ℕ, Bool, true, List, [], ◌∷◌, ◌++◌, Bytes}
use seccap_sgx_bank.CLib.{print_ld}
use seccap_sgx_bank.UserTypes.{
  ProcessResult, process_success, deposit_overflow, need_logout, account_set_fail,
}
use seccap_sgx_bank.Sgx.{Sgx}
use seccap_sgx_bank.World.{M, pure, print, finished, ◌>>=◌, ◌>>◌, login_start, perror_recv}
use seccap_sgx_bank.World.Preserves.{Preserves, Preserves-bind, Preserves-then, Preserves-pure}
use seccap_sgx_bank.Host.Refused.{Refusal, Refused, refused, Preserves-print}
use seccap_sgx_bank.Enclave.{ecall_new_account, ecall_my_inquiry}
use seccap_sgx_bank.Enclave.Refused.{
  ecall_my_inquiry-Refused, ecall_new_account-Refused, ecall_my_deposit-Refused,
  ecall_my_withdraw-Refused,
}
use seccap_sgx_bank.Server.{
  Machine, Outcome, reply, server_end, Recv, closed, failed, received, codes, entry, receive_buf,
  sprintf_new, read_amount, login_process, deposit_process, withdraw_process, execute, handle,
  reception,
}

module _ {k : Refusal} (machine : Machine) where
  sprintf_new-Refused : (n : ℕ) (text : Bytes) → Preserves (Refused k) (sprintf_new machine n text)
  unfolding sprintf_new
  sprintf_new-Refused n text = search refused depth 8

  read_amount-Refused : (fields : List Bytes) → Preserves (Refused k) (read_amount machine fields)
  unfolding read_amount
  read_amount-Refused fields = search refused depth 8

-- What `login_process` sends of an accepted login.
abbrev welcome : Machine → M Outcome
welcome machine = do
  deposits ← ecall_my_inquiry
  send_data ← sprintf_new machine 13 (codes "login" ++ print_ld deposits)
  pure (reply send_data)

-- The reception after the execution of a message.
abbrev answered : M (List Bytes × Bool) → Outcome → M (List Bytes × Bool)
answered rest outcome = elim outcome [
  | server_end ↦ pure ([], true)
  | reply text ↦ do (texts, ended) ← rest; pure (text ∷ texts, ended)
]

module _ {k : Refusal} where
  answered-Refused :
      (rest : M (List Bytes × Bool)) (outcome : Outcome)
      → Preserves (Refused k) rest
      → Preserves (Refused k) (answered rest outcome)
  answered-Refused rest server_end k = Preserves-pure ([], true)
  answered-Refused rest (reply text) k = search refused depth 8

module _ {k : Refusal} (machine : Machine) (sgx : Sgx) where
  welcome-Refused : Preserves (Refused k) (welcome machine)
  welcome-Refused = search (refused, ecall_my_inquiry-Refused, sprintf_new-Refused) depth 8

  greeting-Refused :
      (result : ProcessResult)
      → Preserves (Refused k) (elim result [
        | account_set_fail ↦ pure (reply (codes "login fail."))
        | _ ↦ welcome machine
      ])
  greeting-Refused account_set_fail = Preserves-pure (reply (codes "login fail."))
  greeting-Refused process_success = welcome-Refused
  greeting-Refused deposit_overflow = welcome-Refused
  greeting-Refused need_logout = welcome-Refused

  login_process-Refused :
      (fields : List Bytes) → Preserves (Refused k) (login_process machine sgx fields)
  unfolding login_process
  login_process-Refused fields =
      Preserves-then (print login_start) _ (Preserves-print login_start) (
        Preserves-bind (ecall_new_account sgx (entry fields 1) (entry fields 2)) _
          (ecall_new_account-Refused sgx (entry fields 1) (entry fields 2)) greeting-Refused)

  deposit_process-Refused :
      (fields : List Bytes) → Preserves (Refused k) (deposit_process machine sgx fields)
  unfolding deposit_process
  deposit_process-Refused fields =
      search (refused, read_amount-Refused, ecall_my_deposit-Refused, sprintf_new-Refused) depth 14

  withdraw_process-Refused :
      (fields : List Bytes) → Preserves (Refused k) (withdraw_process machine sgx fields)
  unfolding withdraw_process
  withdraw_process-Refused fields =
      search (refused, read_amount-Refused, ecall_my_withdraw-Refused, sprintf_new-Refused) depth 14

  execute-Refused :
      (buf command : Bytes) (fields : List Bytes)
      → Preserves (Refused k) (execute machine sgx buf command fields)
  unfolding execute
  execute-Refused buf command fields =
      search (refused, login_process-Refused, deposit_process-Refused, withdraw_process-Refused)
        depth 14

  reported-Refused :
      (outcome : Outcome)
      → Preserves (Refused k) (elim outcome [
        | server_end ↦ pure server_end
        | reply bytes ↦ (do print finished; pure (reply bytes))
      ])
  reported-Refused server_end = Preserves-pure server_end
  reported-Refused (reply bytes) = search refused depth 8

  handle-Refused : (buf : Bytes) → Preserves (Refused k) (handle machine sgx buf)
  unfolding handle
  handle-Refused buf = search (refused, execute-Refused, reported-Refused) depth 14

  pub reception-Refused :
      (events : List Recv) → Preserves (Refused k) (reception machine sgx events)
  unfolding reception
  reception-Refused [] = search refused
  reception-Refused (closed ∷ events) = reception-Refused events
  reception-Refused (failed ∷ events) =
      Preserves-then (print perror_recv) (reception machine sgx events)
        (Preserves-print perror_recv) (reception-Refused events)
  reception-Refused (received bytes ∷ events) =
      Preserves-bind (handle machine sgx (receive_buf bytes))
        (answered (reception machine sgx events)) (handle-Refused (receive_buf bytes))
        (λ outcome.
          answered-Refused (reception machine sgx events) outcome (reception-Refused events))
