-- ===== src/Enclave/Refused.antt =====
-- While the host cannot write the file, the ecalls leave it so.
use seccap_sgx_bank.Base.{ℕ, some, Option, List, [], ◌∷◌, bytes_eq, Bytes}
use seccap_sgx_bank.Account.{Account}
use seccap_sgx_bank.Sgx.{Sgx}
use seccap_sgx_bank.World.{load, pure, this, or_stop, null_pointer}
use seccap_sgx_bank.World.Preserves.{
  Preserves, Preserves-bind, Preserves-Bool, Preserves-Option, Preserves-pure, Preserves-or_stop,
}
use seccap_sgx_bank.Host.Refused.{Refusal, Refused, refused, Preserves-this, Preserves-load}
use seccap_sgx_bank.DealManager.Refused.{
  account_login-Refused, set_current_account-Refused, current-Refused, deal_my_deposit-Refused,
  deal_my_withdraw-Refused, account_list_store_storage-Refused, account_list_setting-Refused,
}
use seccap_sgx_bank.Enclave.{
  find_account, existing_account, fresh_account, ecall_init_manager, ecall_new_account,
  ecall_my_deposit, ecall_my_withdraw, ecall_my_inquiry,
}

module _ {k : Refusal} where
  find_account-Refused : (name : Bytes) (ps : List ℕ) → Preserves (Refused k) (find_account name ps)
  unfolding find_account
  find_account-Refused name [] = search refused
  find_account-Refused name (p ∷ ps) = Preserves-bind (load p) _ (Preserves-load p) (λ a.
      Preserves-Bool (bytes_eq name a.name) (pure (some (p, a))) (find_account name ps)
        (Preserves-pure (some (p, a))) (find_account-Refused name ps))

  existing_account-Refused :
      (p : ℕ) (a : Account) (password : Option Bytes)
      → Preserves (Refused k) (existing_account p a password)
  unfolding existing_account
  existing_account-Refused p a password = search (refused, set_current_account-Refused) depth 10

  pub ecall_my_inquiry-Refused : Preserves (Refused k) ecall_my_inquiry
  unfolding ecall_my_inquiry
  ecall_my_inquiry-Refused = search (refused, current-Refused) depth 8

module _ {k : Refusal} (sgx : Sgx) where
  fresh_account-Refused :
      (name : Bytes) (password : Option Bytes)
      → Preserves (Refused k) (fresh_account sgx name password)
  unfolding fresh_account
  fresh_account-Refused name password =
      search (refused, set_current_account-Refused, account_list_store_storage-Refused) depth 14

  pub ecall_new_account-Refused :
      (name password : Option Bytes) → Preserves (Refused k) (ecall_new_account sgx name password)
  unfolding ecall_new_account
  ecall_new_account-Refused name_ptr password_ptr = Preserves-bind this _ Preserves-this (λ m.
      Preserves-bind (or_stop null_pointer name_ptr) _ (Preserves-or_stop null_pointer name_ptr)
        (λ name.
          Preserves-bind (find_account name m.account_list) _
            (find_account-Refused name m.account_list)
            (λ found.
              Preserves-Option found (fresh_account sgx name password_ptr)
                (λ (p, a). existing_account p a password_ptr)
                (fresh_account-Refused name password_ptr)
                (λ (p, a). existing_account-Refused p a password_ptr))))

  pub ecall_my_deposit-Refused : (amount : ℕ) → Preserves (Refused k) (ecall_my_deposit sgx amount)
  unfolding ecall_my_deposit
  ecall_my_deposit-Refused amount =
      search
        (
          refused, account_login-Refused, deal_my_deposit-Refused,
          account_list_store_storage-Refused, current-Refused,
        )
        depth 14

  pub ecall_my_withdraw-Refused :
      (amount : ℕ) → Preserves (Refused k) (ecall_my_withdraw sgx amount)
  unfolding ecall_my_withdraw
  ecall_my_withdraw-Refused amount =
      search
        (
          refused, account_login-Refused, deal_my_withdraw-Refused,
          account_list_store_storage-Refused, current-Refused,
        )
        depth 14

  pub ecall_init_manager-Refused : Preserves (Refused k) (ecall_init_manager sgx)
  unfolding ecall_init_manager
  ecall_init_manager-Refused = search (refused, account_list_setting-Refused) depth 14
