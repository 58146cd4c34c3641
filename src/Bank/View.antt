-- ===== src/Bank/View.antt =====
-- The bank as a ledger: a map from names to accounts, and the name of the customer who is served. It
-- forgets the order of the accounts and the positions in their list.
pub mod Agrees
use seccap_sgx_bank.Base.{
  ℕ, zero, suc, ◌≡◌, ◌≢◌, inl, inr, refl, sym, ap, ◌∙◌, Option, none, some, Option-cases, List, [],
  ◌∷◌, ◌++◌, bytes_eq, bytes_eq_iff, ◌<◌, length, get_elem?-lt, get_elem?-set_self,
  get_elem?-length, get_elem?, set, All-get_elem?, if◌then◌else◌, arith, Bytes,
}
use seccap_sgx_bank.UserTypes.{process_success, account_set_fail, need_logout, to_ℕ}
use seccap_sgx_bank.Account.{Account}
use seccap_sgx_bank.Bank.{debit, credit}
use seccap_sgx_bank.Account
use seccap_sgx_bank.Bank.{
  Bank, Request, new_account, my_deposit, my_withdraw, Answer, result, balance, position, log_in,
  in_use, apply, serve,
}
use seccap_sgx_bank.Bank.Sound.{
  DistinctNames, IsSound, position-some, in_use-cases, credit-name, debit-name,
}

pub record Ledger : Type 0 where
  pub find : Bytes → Option Account
  pub used : Option Bytes

-- The account of that name is `a`, and the others are as before.
abbrev put : Account → (Bytes → Option Account) → Bytes → Option Account
put a find name = if bytes_eq name a.name then some a else find name

-- The account of the customer who is served.
holder : Ledger → Option Account
holder l = elim l.used [ none ↦ none | some name ↦ l.find name ]

-- A change of the account of the customer who is served, with the balance afterwards.
abbrev change_of : Ledger → (Account → Account) → Option Account → Ledger × Answer
change_of l change none = (l, balance (to_ℕ need_logout))
change_of l change (some a) =
    (record l { find = put (change a) l.find }, balance (change a).deposits)

-- The requests on a ledger.
unfoldable pub serve_ledger : Ledger → Request → Ledger × Answer
unfolding holder
serve_ledger l (new_account name password) = elim (l.find name) [
  | none ↦ (
    record { find = put (Account.new_account name password) l.find; used = some name },
    result process_success,
  )
  | some a ↦ (
    record l { used = some name },
    result (if bytes_eq password a.password then process_success else account_set_fail),
  )
]
serve_ledger l (my_deposit amount) = change_of l (λ a. credit a amount) (holder l)
serve_ledger l (my_withdraw amount) = change_of l (λ a. debit a amount) (holder l)

-- The first account of that name.
unfoldable pub find_in : Bytes → List Account → Option Account
find_in name [] = none
find_in name (a ∷ accounts) = if bytes_eq name a.name then some a else find_in name accounts

abbrev pub used_name : Bank → Option Bytes
used_name b = elim (in_use b) [ none ↦ none | some (i, a) ↦ some a.name ]

-- The ledger shows the bank.
pub record Sees (l : Ledger) (b : Bank) : Type 0 where
  pub finds : (name : Bytes) → l.find name ≡ find_in name b.accounts
  pub uses : l.used ≡ used_name b
