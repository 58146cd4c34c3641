-- ===== src/Tests/Requests.antt =====
-- Witnesses of the theorems on ecalls and on messages: a customer opens an account and pays in 100.
use seccap_sgx_bank.Tests.{toy_sgx, toy_laws, toy_machine, empty_world, empty_bank, empty_Inv}
use seccap_sgx_bank.Base.{ℕ, ◌-◌, ◌^◌, ◌≡◌, refl, some, none, List, [], ◌∷◌, arith, Bytes}
use seccap_sgx_bank.CLib.{le_bytes, c_str, atoi}
use seccap_sgx_bank.UserTypes.{process_success, account_set_fail}
use seccap_sgx_bank.Account.{Account}
use seccap_sgx_bank.Bank.{credit, debit}
use seccap_sgx_bank.Account
use seccap_sgx_bank.World.{World, ok}
use seccap_sgx_bank.Bank.{
  Bank, position, log_in, in_use, apply, new_account, my_deposit, my_withdraw, serve, serve_all,
}
use seccap_sgx_bank.Enclave.{ecall_init_manager}
use seccap_sgx_bank.Enclave.Inv.{Inv, Fits}
use seccap_sgx_bank.Enclave.Login.{IsCredential, ecall_new_account-log_in}
use seccap_sgx_bank.Enclave.Serve.{ecall_my_deposit-apply}
use seccap_sgx_bank.Enclave.Restart.{closed, ecall_init_manager-Inv}
use seccap_sgx_bank.Enclave.Refinement.{call_all, call_all-serve_all}
use seccap_sgx_bank.Enclave.Bypass.{log_in_and_withdraw, log_in_and_withdraw-wrong_password}
use seccap_sgx_bank.Server.{reply, codes, handle, deposit_process, withdraw_process}
use seccap_sgx_bank.Server.Split.{message}
use seccap_sgx_bank.Server.Replies.{
  balance_text, Sends, deposit_process-Sends, withdraw_process-reply, withdraw_process-too_big,
}
use seccap_sgx_bank.Server.Messages.{minus, handle-minus}

abbrev pub alice : ℕ → Account
alice n = Account.make (b'a' ∷ []) (b'p' ∷ []) n

abbrev pub bank : ℕ → Bank
bank n = record { accounts = alice n ∷ []; current = some 0 }

pub a-IsCredential : IsCredential (b'a' ∷ [])
a-IsCredential = record { text = (omega arith, tt); field = (omega arith, tt) }

pub p-IsCredential : IsCredential (b'p' ∷ [])
p-IsCredential = record { text = (omega arith, tt); field = (omega arith, tt) }

pub bank-Fits : (n : ℕ) → Fits toy_sgx (alice n ∷ [])
unfolding le_bytes
bank-Fits n = record { plain_fits = omega arith; sealed_fits = omega arith }

log_in-empty : log_in empty_bank (b'a' ∷ []) (b'p' ∷ []) ≡ (bank 0, process_success)
unfolding log_in
log_in-empty = refl

-- A state in which Alice is served and owns 100.
pub funded : (w : World) × Inv toy_sgx (bank 100) w
unfolding log_in apply credit
funded =
    let (w, run, inv) =
      ecall_new_account-log_in toy_sgx toy_laws empty_bank empty_world (b'a' ∷ []) (b'p' ∷ [])
        empty_Inv a-IsCredential p-IsCredential (bank-Fits 0) in
    let (w', run', inv') = ecall_my_deposit-apply toy_sgx toy_laws (bank 0) w 100 inv in (w', inv')

call_all-serve_all_example :
    let requests = new_account (b'a' ∷ []) (b'p' ∷ []) ∷ my_deposit 100 ∷ my_withdraw 40 ∷ [] in
    let (b, answers) = serve_all empty_bank requests in
    (w : World) × (call_all toy_sgx requests empty_world ≡ (ok answers, w)) × Inv toy_sgx b w
unfolding serve_all serve credit debit
call_all-serve_all_example =
    call_all-serve_all toy_sgx toy_laws
      (new_account (b'a' ∷ []) (b'p' ∷ []) ∷ my_deposit 100 ∷ my_withdraw 40 ∷ []) empty_bank
      empty_world empty_Inv
      (
        (a-IsCredential, p-IsCredential),
        bank-Fits 0,
        (omega arith, bank-Fits 100, (omega arith, bank-Fits 60, tt)),
      )

-- A new run of the enclave on the file that the last one left.
abbrev restarted : World
restarted = record empty_world { deal_manager = none; file = (let w = funded.0 in w.file) }

ecall_init_manager-Inv_example :
    (w : World) × (ecall_init_manager toy_sgx restarted ≡ (ok process_success, w))
    × Inv toy_sgx (closed toy_sgx toy_laws (bank 100)) w
ecall_init_manager-Inv_example =
    ecall_init_manager-Inv toy_sgx toy_laws (bank 100) (funded.0) restarted (funded.1) refl
      (record {
        readable = record { can_read = refl; can_seek = refl };
        can_write = refl;
        write_succeeds = refl;
        close_succeeds = refl;
      })

log_in_and_withdraw-wrong_password_example :
    (w : World) × (log_in_and_withdraw toy_sgx (b'a' ∷ []) (b'q' ∷ []) 40 (funded.0)
      ≡ (ok (account_set_fail, 60), w))
    × Inv toy_sgx (bank 60) w
unfolding position
log_in_and_withdraw-wrong_password_example =
    log_in_and_withdraw-wrong_password toy_sgx toy_laws (bank 100) (funded.0) (b'a' ∷ [])
      (b'q' ∷ []) 0 40 (alice 100) (funded.1) a-IsCredential
      (record { text = (omega arith, tt); field = (omega arith, tt) }) refl refl (ground arith)
      (omega arith)

-- The text of an amount of two digits.
abbrev two_digits : Bytes
two_digits = b'6' ∷ b'0' ∷ []

abbrev fields : List Bytes
fields = codes "deposit" ∷ two_digits ∷ []

deposit_process-Sends_example :
    let (sent, w) = deposit_process toy_machine toy_sgx fields (funded.0) in
    Sends toy_machine 160 sent × Inv toy_sgx (bank 160) w
unfolding c_str atoi in_use credit
deposit_process-Sends_example =
    deposit_process-Sends toy_machine toy_sgx toy_laws (bank 100) (funded.0) fields two_digits 0
      (alice 100) (funded.1) refl refl (omega arith)

withdraw_process-reply_example :
    (w : World) × (withdraw_process toy_machine toy_sgx fields (funded.0)
      ≡ (ok (reply (codes "too big.")), w))
    × Inv toy_sgx (bank 40) w
unfolding c_str atoi in_use debit
withdraw_process-reply_example =
    withdraw_process-reply toy_machine toy_sgx toy_laws (bank 100) (funded.0) fields two_digits 0
      (alice 100) (funded.1) refl refl (omega arith)

withdraw_process-too_big_example :
    (w : World) × (withdraw_process toy_machine toy_sgx fields (funded.0)
      ≡ (ok (reply (codes "too big.")), w))
    × Inv toy_sgx (bank 40) w
unfolding c_str atoi in_use
withdraw_process-too_big_example =
    withdraw_process-too_big toy_machine toy_sgx toy_laws (bank 100) (funded.0) fields two_digits 0
      (alice 100) (funded.1) refl refl (omega arith) (omega arith) (omega arith) (omega arith)

handle-minus_example :
    (w : World) × (handle toy_machine toy_sgx
        (message (codes "deposit" ∷ minus 130 ∷ []) [])
        (funded.0)
      ≡ (ok (reply (balance_text toy_machine (2 ^ 64 - 30))), w))
    × Inv toy_sgx (bank (2 ^ 64 - 30)) w
unfolding in_use
handle-minus_example =
    handle-minus toy_machine toy_sgx toy_laws (bank 100) (funded.0) [] 130 0 (alice 100) (funded.1)
      refl (omega arith) (omega arith) tt
