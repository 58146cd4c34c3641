-- ===== src/Bank/Total.antt =====
-- The money in the bank: what the accepted requests bring in and take out.
use seccap_sgx_bank.Base.{
  ℕ, zero, suc, ◌+◌, ◌^◌, ltb, leb, if◌then◌else◌, ◌≡◌, inl, inr, refl, none, some, Option-cases,
  List, [], ◌∷◌, ◌++◌, get_elem?, set, arith,
}
use seccap_sgx_bank.Account.{Account}
use seccap_sgx_bank.Bank.{debit, credit}
use seccap_sgx_bank.Account
use seccap_sgx_bank.Bank.{
  Bank, Request, new_account, my_deposit, my_withdraw, position, log_in, in_use, apply, serve,
  serve_all,
}
use seccap_sgx_bank.Bank.Sound.{IsSound, in_use-cases, serve-IsSound}

abbrev pub total : List Account → ℕ
total [] = 0
total (a ∷ accounts) = a.deposits + total accounts

-- The amount of an operation on the account in use, where the operation is one that is carried out.
abbrev credited : Account → ℕ → ℕ
credited a amount = if ltb (a.deposits + amount) (2 ^ 64) then amount else 0

abbrev debited : Account → ℕ → ℕ
debited a amount = if leb amount a.deposits then amount else 0

-- What a request brings into the bank, and what it takes out.
unfoldable pub paid_in : Bank → Request → ℕ
paid_in b (my_deposit amount) = elim (in_use b) [ none ↦ 0 | some (i, a) ↦ credited a amount ]
paid_in b _ = 0

unfoldable pub paid_out : Bank → Request → ℕ
paid_out b (my_withdraw amount) = elim (in_use b) [ none ↦ 0 | some (i, a) ↦ debited a amount ]
paid_out b _ = 0

unfoldable pub all_paid_in : Bank → List Request → ℕ
unfolding paid_in
all_paid_in b [] = 0
all_paid_in b (r ∷ requests) = paid_in b r + all_paid_in (serve b r).0 requests

unfoldable pub all_paid_out : Bank → List Request → ℕ
unfolding paid_out
all_paid_out b [] = 0
all_paid_out b (r ∷ requests) = paid_out b r + all_paid_out (serve b r).0 requests

total-set :
    (accounts : List Account) (i : ℕ) (a v : Account)
    → get_elem? accounts i ≡ some a
    → total (set accounts i v) + a.deposits ≡ total accounts + v.deposits
total-set [] i a v e = cc
total-set (x ∷ accounts) zero a v e =
    let same : x.deposits ≡ a.deposits = ground arith in omega arith
total-set (x ∷ accounts) (suc i) a v e = omega (arith, total-set accounts i a v e)

total-append :
    (accounts : List Account) (a : Account)
    → total (accounts ++ a ∷ []) ≡ total accounts + a.deposits
total-append [] a = omega arith
total-append (x ∷ accounts) a = omega (arith, total-append accounts a)

credit-credited :
    (a : Account) (amount : ℕ)
    → (let v = credit a amount in v.deposits ≡ a.deposits + credited a amount)
unfolding credit
credit-credited a amount = ground arith

debit-debited :
    (a : Account) (amount : ℕ)
    → (let v = debit a amount in v.deposits + debited a amount ≡ a.deposits)
unfolding debit
debit-debited a amount = ground arith

-- One request changes the total by exactly what it brings in and takes out.
serve-total :
    (b : Bank) (r : Request)
    → IsSound b
    → (let (b', x) = serve b r in total b'.accounts + paid_out b r ≡ total b.accounts + paid_in b r)
unfolding serve apply log_in paid_in paid_out
serve-total b (new_account name password) s = elim (Option-cases (position name b.accounts)) [
  | inl unknown ↦
      rw (unknown, log_in)
        (omega (arith, total-append b.accounts (Account.new_account name password)))
  | inr (i, known) ↦ rw (known, log_in) (omega arith)
]
serve-total b (my_deposit amount) s = elim (in_use-cases b) [
  | inl nobody ↦ rw (nobody, apply, paid_in) (omega arith)
  | inr (i, a, used, is, at) ↦
      rw (used, apply, paid_in)
        (omega (arith, total-set b.accounts i a (credit a amount) at, credit-credited a amount))
]
serve-total b (my_withdraw amount) s = elim (in_use-cases b) [
  | inl nobody ↦ rw (nobody, apply, paid_out) (omega arith)
  | inr (i, a, used, is, at) ↦
      rw (used, apply, paid_out)
        (omega (arith, total-set b.accounts i a (debit a amount) at, debit-debited a amount))
]

-- No money is made or lost: after any sequence of requests on a sound bank, the balances and what
-- the accepted withdrawals have taken out are together what the balances were and what the accepted
-- deposits have brought in.
pub serve_all-total :
    (b : Bank) (requests : List Request)
    → IsSound b
    → let (b', answers) = serve_all b requests in
      total b'.accounts + all_paid_out b requests ≡ total b.accounts + all_paid_in b requests
unfolding serve_all all_paid_in all_paid_out
serve_all-total b [] s = refl
serve_all-total b (r ∷ requests) s =
    omega (arith, serve-total b r s, serve_all-total (serve b r).0 requests (serve-IsSound b r s))
