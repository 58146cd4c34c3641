-- ===== src/Account.antt =====
-- Enclave/Account.h and Enclave/Account.cpp: one bank account.
pub mod Balance
use seccap_sgx_bank.Base.{ℕ, ◌+◌, ◌-◌, ◌%◌, ltb, if◌then◌else◌, length, Bytes}
use seccap_sgx_bank.CLib.{u64_mod}
use seccap_sgx_bank.UserTypes.{ProcessResult, process_success, deposit_overflow}

pub record Account : Type 0 where
  pub name : Bytes
  pub password : Bytes
  pub deposits : ℕ
  pub account_data_size : ℕ

-- The constructor; `sizeof(uint64_t)` is 8.
abbrev pub make : Bytes → Bytes → ℕ → Account
make name password deposits = record {
  name = name;
  password = password;
  deposits = deposits;
  account_data_size = (length name + length password + 8) % u64_mod;
}

-- `Account::NewAccount`, less the allocation
abbrev pub new_account : Bytes → Bytes → Account
new_account name password = make name password 0

-- `Account::Withdraw`: the object afterwards, and the result.
unfoldable pub withdraw : Account → ℕ → Account × ProcessResult
withdraw a amount =
    if ltb a.deposits amount
    then (a, deposit_overflow)
    else (record a { deposits = (a.deposits + u64_mod - amount) % u64_mod }, process_success)

-- `Account::Deposit`
unfoldable pub deposit : Account → ℕ → Account × ProcessResult
deposit a amount =
    if ltb (u64_mod - 1 - a.deposits) amount
    then (a, deposit_overflow)
    else (record a { deposits = (a.deposits + amount) % u64_mod }, process_success)
