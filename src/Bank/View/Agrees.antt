-- ===== src/Bank/View/Agrees.antt =====
-- A ledger answers as the bank that it shows.
use seccap_sgx_bank.Base.{
  ℕ, zero, suc, ◌≡◌, ◌≢◌, inl, inr, refl, sym, ap, ◌∙◌, none, some, Option-cases, List, [], ◌∷◌,
  ◌++◌, bytes_eq, bytes_eq_iff, ◌<◌, length, get_elem?-lt, get_elem?-set_self, get_elem?-length,
  get_elem?, set, All-get_elem?, if◌then◌else◌, arith, Bytes,
}
use seccap_sgx_bank.Account.{Account}
use seccap_sgx_bank.Bank.{debit, credit}
use seccap_sgx_bank.Account
use seccap_sgx_bank.Bank.{
  Bank, Request, new_account, my_deposit, my_withdraw, Answer, result, balance, position, log_in,
  in_use, apply, serve,
}
use seccap_sgx_bank.Bank.Sound.{
  DistinctNames, IsSound, position-some, in_use-cases, credit-name, debit-name,
}
use seccap_sgx_bank.Bank.View.{
  Ledger, put, holder, change_of, serve_ledger, find_in, used_name, Sees,
}

position-none_find :
    (name : Bytes) (accounts : List Account)
    → position name accounts ≡ none
    → find_in name accounts ≡ none
unfolding find_in position
position-none_find name [] e = refl
position-none_find name (a ∷ accounts) e = ground (arith, position-none_find name accounts)

-- Names are unique, so an account is found by its name.
find_in-get_elem? :
    (accounts : List Account) (i : ℕ) (a : Account)
    → DistinctNames accounts
    → get_elem? accounts i ≡ some a
    → find_in a.name accounts ≡ some a
unfolding find_in
find_in-get_elem? [] i a d e = cc
find_in-get_elem? (x ∷ accounts) zero a d e = ground (arith, bytes_eq_iff a.name x.name)
find_in-get_elem? (x ∷ accounts) (suc i) a d e =
    let ne = All-get_elem? (λ y. x.name ≢ y.name) accounts i d.0 e in
    ground (arith, bytes_eq_iff a.name x.name, find_in-get_elem? accounts i a d.1 e)

find_in-append :
    (name : Bytes) (accounts : List Account) (a : Account)
    → find_in a.name accounts ≡ none
    → find_in name (accounts ++ a ∷ []) ≡ put a (λ n. find_in n accounts) name
unfolding find_in
find_in-append name [] a h = refl
find_in-append name (x ∷ accounts) a h = ground (
  arith,
  find_in-append name accounts a,
  bytes_eq_iff name x.name,
  bytes_eq_iff name a.name,
  bytes_eq_iff a.name x.name,
)

find_in-set :
    (name : Bytes) (accounts : List Account) (i : ℕ) (a v : Account)
    → DistinctNames accounts
    → get_elem? accounts i ≡ some a
    → v.name ≡ a.name
    → find_in name (set accounts i v) ≡ put v (λ n. find_in n accounts) name
unfolding find_in
find_in-set name [] i a v d e n = cc
find_in-set name (x ∷ accounts) zero a v d e n =
    ground (arith, bytes_eq_iff name x.name, bytes_eq_iff name v.name)
find_in-set name (x ∷ accounts) (suc i) a v d e n =
    let ne = All-get_elem? (λ y. x.name ≢ y.name) accounts i d.0 e in
    ground (
      arith,
      bytes_eq_iff name x.name,
      bytes_eq_iff name v.name,
      find_in-set name accounts i a v d.1 e n,
    )

-- The same answer, and the ledger shows the bank afterwards.
abbrev pub Agrees : Ledger × Answer → Bank × Answer → Type 0
Agrees (l, x) (b, y) = (x ≡ y) × Sees l b

holder-none : (l : Ledger) (b : Bank) → Sees l b → in_use b ≡ none → holder l ≡ none
unfolding holder
holder-none l b s e = let uses = s.uses in let nobody : l.used ≡ none = ground arith in ground arith

holder-some :
    (l : Ledger) (b : Bank) (i : ℕ) (a : Account)
    → Sees l b
    → DistinctNames b.accounts
    → in_use b ≡ some (i, a)
    → get_elem? b.accounts i ≡ some a
    → holder l ≡ some a
unfolding holder
holder-some l b i a s d e at =
    let uses = s.uses in
    let named : l.used ≡ some a.name = ground arith in
    ground (arith, s.finds a.name, find_in-get_elem? b.accounts i a d at)

used_name-in_use :
    (b : Bank) (i : ℕ) (a : Account) → in_use b ≡ some (i, a) → used_name b ≡ some a.name
used_name-in_use b i a e = rw (e, used_name)

in_use-set :
    (b : Bank) (i : ℕ) (v : Account)
    → b.current ≡ some i
    → i < length b.accounts
    → in_use (record b { accounts = set b.accounts i v }) ≡ some (i, v)
unfolding in_use
in_use-set b i v is h = ground (arith, get_elem?-set_self b.accounts i v h)

in_use-current :
    (b : Bank) (i : ℕ) (a : Account)
    → get_elem? b.accounts i ≡ some a
    → in_use (record b { current = some i }) ≡ some (i, a)
unfolding in_use
in_use-current b i a at = ground arith

apply-Agrees :
    (l : Ledger) (b : Bank) (change : Account → Account)
    → ((a : Account) → (change a).name ≡ a.name)
    → Sees l b
    → IsSound b
    → Agrees (change_of l change (holder l)) (let (b', n) = apply b change in (b', balance n))
unfolding apply
apply-Agrees l b change named s sound = elim (in_use-cases b) [
  | inl nobody ↦ rw (holder-none l b s nobody) (rw (nobody, apply) (refl, s))
  | inr (i, a, used, is, at) ↦ rw (holder-some l b i a s sound.names used at) (
      rw (used, apply)
        (
          refl,
          record {
            finds = λ name.
                ap (λ o. if bytes_eq name (change a).name then some (change a) else o)
                  (s.finds name)
                ∙ sym (find_in-set name b.accounts i a (change a) sound.names at (named a));
            uses =
                s.uses
                ∙ used_name-in_use b i a used
                ∙ ap some (sym (named a))
                ∙ sym (
                    used_name-in_use (record b { accounts = set b.accounts i (change a) }) i
                      (change a) (in_use-set b i (change a) is (get_elem?-lt b.accounts i at)));
          },
        ))
]

log_in-Agrees :
    (l : Ledger) (b : Bank) (name password : Bytes)
    → Sees l b
    → IsSound b
    → Agrees
        (serve_ledger l (new_account name password))
        (let (b', r) = log_in b name password in (b', result r))
unfolding serve_ledger log_in
log_in-Agrees l b name password s sound = elim (Option-cases (position name b.accounts)) [
  | inl unknown ↦
      let absent : l.find name ≡ none = s.finds name ∙ position-none_find name b.accounts unknown in
      rw (absent, serve_ledger)
        (rw (unknown, log_in)
          (
            refl,
            record {
              finds = λ n.
                  ap (λ o. if bytes_eq n name then some (Account.new_account name password) else o)
                    (s.finds n)
                  ∙ sym (
                      find_in-append n b.accounts (Account.new_account name password)
                        (position-none_find name b.accounts unknown));
              uses = sym (
                  used_name-in_use
                    (record {
                      accounts = b.accounts ++ Account.new_account name password ∷ [];
                      current = some (length b.accounts);
                    })
                    (length b.accounts) (Account.new_account name password)
                    (in_use-current
                      (record b { accounts = b.accounts ++ Account.new_account name password ∷ [] })
                      (length b.accounts) (Account.new_account name password)
                      (get_elem?-length b.accounts (Account.new_account name password))));
            },
          ))
  | inr (i, known) ↦
      let (a, at, is) = position-some name b.accounts i known in
      let present : l.find name ≡ some a =
        s.finds name
        ∙ ap (λ n. find_in n b.accounts) (sym is)
        ∙ find_in-get_elem? b.accounts i a sound.names at in
      rw (present, serve_ledger)
        (rw (known, at, log_in)
          (
            refl,
            record {
              finds = s.finds;
              uses =
                  ap some (sym is)
                  ∙ sym (
                      used_name-in_use (record b { current = some i }) i a
                        (in_use-current b i a at));
            },
          ))
]

-- A ledger that shows a sound bank answers every request as the bank does, and shows it afterwards:
-- the order of the accounts and their positions never matter.
pub serve-Agrees :
    (l : Ledger) (b : Bank) (r : Request)
    → Sees l b
    → IsSound b
    → Agrees (serve_ledger l r) (serve b r)
unfolding serve_ledger serve
serve-Agrees l b (new_account name password) s sound = log_in-Agrees l b name password s sound
serve-Agrees l b (my_deposit amount) s sound =
    apply-Agrees l b (λ a. credit a amount) (λ a. credit-name a amount) s sound
serve-Agrees l b (my_withdraw amount) s sound =
    apply-Agrees l b (λ a. debit a amount) (λ a. debit-name a amount) s sound
