-- ===== src/Bank.antt =====
-- The bank that the enclave promises: a list of accounts and the customer who is served, with no
-- pointers, buffers, sealing or file. Results are those of the ecalls of Enclave/Enclave.cpp.
pub mod Sound
pub mod View
pub mod Total
use seccap_sgx_bank.Base.{
  ℕ, suc, ◌+◌, ◌-◌, ◌^◌, ltb, leb, Option, none, some, List, [], ◌∷◌, ◌++◌, bytes_eq, if◌then◌else◌,
  length, get_elem?, set, Bytes,
}
use mathlib.Core.Option
use seccap_sgx_bank.UserTypes.{ProcessResult, process_success, need_logout, account_set_fail, to_ℕ}
use seccap_sgx_bank.Account.{Account}
use seccap_sgx_bank.Account

pub record Bank : Type 0 where
  pub accounts : List Account
  -- the position of the account in use
  pub current : Option ℕ

-- The position of the first account of that name.
unfoldable pub position : Bytes → List Account → Option ℕ
unfolding bytes_eq
position name [] = none
position name (a ∷ accounts) =
    if bytes_eq name a.name then some 0 else Option.map suc (position name accounts)

-- A known name makes its account the current one, with the right password or not; an unknown name
-- opens an account.
unfoldable pub log_in : Bank → Bytes → Bytes → Bank × ProcessResult
unfolding position bytes_eq
log_in b name password = elim (position name b.accounts) [
  | some i ↦ (
    record b { current = some i },
    elim (get_elem? b.accounts i) [
      | some a ↦ if bytes_eq password a.password then process_success else account_set_fail
      | none ↦ account_set_fail
    ],
  )
  | none ↦ (
    record {
      accounts = b.accounts ++ Account.new_account name password ∷ [];
      current = some (length b.accounts);
    },
    process_success,
  )
]

-- The account in use and its position.
unfoldable pub in_use : Bank → Option (ℕ × Account)
in_use b = elim b.current [
  | none ↦ none
  | some i ↦ Option.map (λ a. (i, a)) (get_elem? b.accounts i)
]

-- The account with the amount added, where the sum is a 64-bit number, and as it is otherwise.
unfoldable pub credit : Account → ℕ → Account
credit a amount =
    if ltb (a.deposits + amount) (2 ^ 64) then record a { deposits = a.deposits + amount } else a

-- The account less the amount, where the balance covers it, and as it is otherwise.
unfoldable pub debit : Account → ℕ → Account
debit a amount = if leb amount a.deposits then record a { deposits = a.deposits - amount } else a

-- The account in use is changed, and its balance afterwards is the answer; with none in use the
-- answer is the code NEED_LOGOUT.
unfoldable pub apply : Bank → (Account → Account) → Bank × ℕ
unfolding in_use
apply b change = elim (in_use b) [
  | none ↦ (b, to_ℕ need_logout)
  | some (i, a) ↦ (record b { accounts = set b.accounts i (change a) }, (change a).deposits)
]

-- The ecalls that a customer's requests lead to.
pub data Request : Type 0 where
  new_account : Bytes → Bytes → Request
  my_deposit my_withdraw : ℕ → Request

pub data Answer : Type 0 where
  result : ProcessResult → Answer
  balance : ℕ → Answer

unfoldable pub serve : Bank → Request → Bank × Answer
unfolding log_in apply credit debit
serve b (new_account name password) = let (b', r) = log_in b name password in (b', result r)
serve b (my_deposit amount) = let (b', n) = apply b (λ a. credit a amount) in (b', balance n)
serve b (my_withdraw amount) = let (b', n) = apply b (λ a. debit a amount) in (b', balance n)

-- What the bank answers to a sequence of requests.
unfoldable pub serve_all : Bank → List Request → Bank × List Answer
serve_all b [] = (b, [])
serve_all b (r ∷ requests) =
    let (b', a) = serve b r in let (b'', answers) = serve_all b' requests in (b'', a ∷ answers)
