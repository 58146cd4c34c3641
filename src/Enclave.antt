-- ===== src/Enclave.antt =====
-- Enclave/Enclave.cpp: the five ecalls. An argument `none` is a NULL pointer; a C string is given
-- by its bytes before the NUL.
pub mod Refused
pub mod Durable
pub mod Lost
pub mod Inv
pub mod Change
pub mod Serve
pub mod Login
pub mod Restart
pub mod Refinement
pub mod Bypass
pub mod Books
pub mod Print
use seccap_sgx_bank.Base.{
  ℕ, Bool, true, false, not, Option, none, some, List, [], ◌∷◌, ◌++◌, bytes_eq, if◌then◌else◌,
  Bytes,
}
use seccap_sgx_bank.CLib.{strcmp_eq}
use seccap_sgx_bank.UserTypes.{
  ProcessResult, process_success, deposit_overflow, need_logout, account_set_fail, to_ℕ,
}
use seccap_sgx_bank.Account.{Account}
use seccap_sgx_bank.Account
use seccap_sgx_bank.Sgx.{Sgx}
use seccap_sgx_bank.DealManager.{
  account_login, set_current_account, current, deal_my_deposit, deal_my_withdraw,
  account_list_store_storage, account_list_setting,
}
use seccap_sgx_bank.DealManager
use seccap_sgx_bank.World.{
  World, M, ok, stop, null_pointer, server_ready, ◌>>=◌, ◌>>◌, pure, halt, gets, modify, load,
  alloc, this, set_this, or_stop, print,
}

-- The loop of `ecallNewAccount`: the first account of that name.
unfoldable pub find_account : Bytes → List ℕ → M (Option (ℕ × Account))
unfolding bytes_eq
find_account name [] = pure none
find_account name (p ∷ ps) = do
  a ← load p
  elim (bytes_eq name a.name) [ true ↦ pure (some (p, a)) | false ↦ find_account name ps ]

-- The last test of `ecallNewAccount`
abbrev pub set_result : ProcessResult → ProcessResult
set_result process_success = process_success
set_result _ = account_set_fail

-- `ecallNewAccount` where the name is known
unfoldable pub existing_account : ℕ → Account → Option Bytes → M ProcessResult
unfolding strcmp_eq
existing_account p a password_ptr = do
  result ← set_current_account p
  password ← or_stop null_pointer password_ptr
  if not (strcmp_eq password a.password) then pure account_set_fail else pure (set_result result)

unfoldable pub ecall_my_inquiry : M ℕ
ecall_my_inquiry = do (p, a) ← current; pure a.deposits

module _ (sgx : Sgx) where
  unfoldable pub ecall_init_manager : M ProcessResult
  ecall_init_manager = do
    set_this DealManager.make
    account_list_setting sgx
    print server_ready
    pure process_success

  -- `ecallNewAccount` where it is not. `current_account`, which is pushed, is `p`.
  unfoldable pub fresh_account : Bytes → Option Bytes → M ProcessResult
  fresh_account name password_ptr = do
    password ← or_stop null_pointer password_ptr
    p ← alloc (Account.new_account name password)
    result ← set_current_account p
    m ← this
    set_this (record m { account_list = m.account_list ++ p ∷ [] })
    account_list_store_storage sgx
    pure (set_result result)

  unfoldable pub ecall_new_account : Option Bytes → Option Bytes → M ProcessResult
  unfolding find_account existing_account fresh_account
  ecall_new_account name_ptr password_ptr = do
    m ← this
    name ← or_stop null_pointer name_ptr
    found ← find_account name m.account_list
    elim found [
      | some (p, a) ↦ existing_account p a password_ptr
      | none ↦ fresh_account name password_ptr
    ]

  unfoldable pub ecall_my_deposit : ℕ → M ℕ
  ecall_my_deposit amount = do
    logged_in ← account_login
    if logged_in
        then (do
          deal_my_deposit amount
          account_list_store_storage sgx
          (p, a) ← current
          pure a.deposits)
        else pure (to_ℕ need_logout)

  unfoldable pub ecall_my_withdraw : ℕ → M ℕ
  ecall_my_withdraw amount = do
    logged_in ← account_login
    if logged_in
        then (do
          deal_my_withdraw amount
          account_list_store_storage sgx
          (p, a) ← current
          pure a.deposits)
        else pure (to_ℕ need_logout)
