-- ===== src/DealManager/Refused.antt =====
-- While the host cannot write the file, the operations on the list of accounts leave it so.
use seccap_sgx_bank.Base.{ℕ, zero, suc, ◌-◌, true, false, List, [], ◌∷◌, ◌==◌, length, Bytes}
use seccap_sgx_bank.Account.{Account}
use seccap_sgx_bank.Sgx.{Sgx}
use seccap_sgx_bank.World.{this, pure}
use seccap_sgx_bank.World.Preserves.{
  Preserves, Preserves-bind, Preserves-then, Preserves-Bool, Preserves-Option, Preserves-pure,
}
use seccap_sgx_bank.Host.Refused.{Refusal, Refused, refused, Preserves-this}
use seccap_sgx_bank.Sealing.Refused.{sealing-Refused, unsealing-Refused}
use seccap_sgx_bank.DealManager.{
  Cursor, copy_out, add_out, marshal_account, marshal_all, load_all, parse_account, push_account,
  parse_loop, account_login, set_current_account, current, deal_my_deposit, deal_my_withdraw,
  account_list_store_storage, account_list_setting,
}

module _ {k : Refusal} where
  copy_out-Refused : (src : Bytes) (c : Cursor) → Preserves (Refused k) (copy_out src c)
  unfolding copy_out
  copy_out-Refused src c = search refused

  add_out-Refused : (n : ℕ) (c : Cursor) → Preserves (Refused k) (add_out n c)
  unfolding add_out
  add_out-Refused n c = search refused

  marshal_account-Refused : (a : Account) (c : Cursor) → Preserves (Refused k) (marshal_account a c)
  unfolding marshal_account
  marshal_account-Refused a c = search (refused, copy_out-Refused, add_out-Refused) depth 12

  pub marshal_all-Refused :
      (accounts : List Account) (c : Cursor) → Preserves (Refused k) (marshal_all accounts c)
  unfolding marshal_all
  marshal_all-Refused [] c = search refused
  marshal_all-Refused (a ∷ accounts) c =
      Preserves-bind (marshal_account a c) (λ c'. marshal_all accounts c')
        (marshal_account-Refused a c) (λ c'. marshal_all-Refused accounts c')

  pub load_all-Refused : (ps : List ℕ) → Preserves (Refused k) (load_all ps)
  unfolding load_all
  load_all-Refused [] = search refused
  load_all-Refused (p ∷ ps) = let rest = load_all-Refused ps in search refused depth 8

  parse_account-Refused : (bytes : Bytes) → Preserves (Refused k) (parse_account bytes)
  unfolding parse_account
  parse_account-Refused bytes = search refused depth 14

  push_account-Refused : (a : Account) → Preserves (Refused k) (push_account a)
  unfolding push_account
  push_account-Refused a = search refused depth 8

  parse_loop-Refused :
      (fuel total size : ℕ) (rest : Bytes) → Preserves (Refused k) (parse_loop fuel total size rest)
  unfolding parse_loop
  parse_loop-Refused zero total size rest = search refused
  parse_loop-Refused (suc fuel) total size rest =
      Preserves-bind (parse_account rest) _ (parse_account-Refused rest) (λ (a, rest').
        Preserves-then (push_account a) _ (push_account-Refused a) (
          Preserves-Bool (total - length rest' == size) (pure tt) (parse_loop fuel total size rest')
            (Preserves-pure tt) (parse_loop-Refused fuel total size rest')))

  pub account_login-Refused : Preserves (Refused k) account_login
  unfolding account_login
  account_login-Refused = Preserves-bind this _ Preserves-this (λ m.
      Preserves-Option m.current_account (pure false) (λ _. pure true) (Preserves-pure false)
        (λ _. Preserves-pure true))

  pub set_current_account-Refused : (p : ℕ) → Preserves (Refused k) (set_current_account p)
  unfolding set_current_account
  set_current_account-Refused p = search refused depth 8

  pub current-Refused : Preserves (Refused k) current
  unfolding current
  current-Refused = search refused depth 8

  pub deal_my_deposit-Refused : (amount : ℕ) → Preserves (Refused k) (deal_my_deposit amount)
  unfolding deal_my_deposit
  deal_my_deposit-Refused amount = search (refused, current-Refused) depth 8

  pub deal_my_withdraw-Refused : (amount : ℕ) → Preserves (Refused k) (deal_my_withdraw amount)
  unfolding deal_my_withdraw
  deal_my_withdraw-Refused amount = search (refused, current-Refused) depth 8

  pub account_list_store_storage-Refused :
      (sgx : Sgx) → Preserves (Refused k) (account_list_store_storage sgx)
  unfolding account_list_store_storage
  account_list_store_storage-Refused sgx =
      search (refused, load_all-Refused, marshal_all-Refused, sealing-Refused) depth 14

  pub account_list_setting-Refused : (sgx : Sgx) → Preserves (Refused k) (account_list_setting sgx)
  unfolding account_list_setting
  account_list_setting-Refused sgx =
      search (refused, unsealing-Refused, parse_loop-Refused) depth 14
