-- ===== src/Bank/Sound.antt =====
-- What holds of a bank between two requests.
use seccap_sgx_bank.Base.{
  ℕ, zero, suc, ◌<◌, ◌≡◌, ◌≢◌, ◌⊎◌, inl, inr, refl, sym, ap, ◌∙◌, none, some, Option-cases,
  Bool-cases, List, [], ◌∷◌, ◌++◌, bytes_eq, bytes_eq_iff, length, length-append, length-set,
  get_elem?, set, get_elem?-lt, All, All-append, All-imp, All-set, All-get_elem?, arith, Bytes,
}
use seccap_sgx_bank.Account.{Account}
use seccap_sgx_bank.Bank.{debit, credit}
use seccap_sgx_bank.Account
use seccap_sgx_bank.Account.Balance.{InRange}
use seccap_sgx_bank.Bank.{
  Bank, Request, new_account, my_deposit, my_withdraw, position, log_in, in_use, apply, serve,
}

-- No two accounts have one name.
abbrev pub DistinctNames : List Account → Type 0
DistinctNames [] = Unit
DistinctNames (a ∷ accounts) = All (λ x. a.name ≢ x.name) accounts × DistinctNames accounts

-- Names are unique, balances are 64-bit numbers, and the account in use exists.
pub record IsSound (b : Bank) : Type 0 where
  pub names : DistinctNames b.accounts
  pub balances : All InRange b.accounts
  pub used : (b.current ≡ none) ⊎ ((i : ℕ) × (b.current ≡ some i) × (i < length b.accounts))

pub position-none :
    (name : Bytes) (accounts : List Account)
    → position name accounts ≡ none
    → All (λ x. x.name ≢ name) accounts
unfolding position
position-none name [] e = tt
position-none name (a ∷ accounts) e = elim (Bool-cases (bytes_eq name a.name)) [
  | inl same ↦ absurd (ground arith)
  | inr other ↦ (
    λ h. (let t = (bytes_eq_iff name a.name).1 (sym h) in cc),
    position-none name accounts (ground arith),
  )
]

pub position-some :
    (name : Bytes) (accounts : List Account) (i : ℕ)
    → position name accounts ≡ some i
    → (a : Account) × (get_elem? accounts i ≡ some a) × (a.name ≡ name)
unfolding position
position-some name [] i e = cc
position-some name (a ∷ accounts) i e = elim (Bool-cases (bytes_eq name a.name)) [
  | inl same ↦
      let first : i ≡ 0 = ground arith in
      (a, rw first refl, sym ((bytes_eq_iff name a.name).0 same))
  | inr other ↦ elim (Option-cases (position name accounts)) [
    | inl unknown ↦ absurd (ground arith)
    | inr (j, known) ↦
        let later : i ≡ suc j = ground arith in
        let (b, at, is) = position-some name accounts j known in (b, rw later at, is)
  ]
]

DistinctNames-append :
    (accounts : List Account) (a : Account)
    → DistinctNames accounts
    → All (λ x. x.name ≢ a.name) accounts
    → DistinctNames (accounts ++ a ∷ [])
DistinctNames-append [] a d h = (tt, tt)
DistinctNames-append (x ∷ accounts) a d h = (
  All-append (λ y. x.name ≢ y.name) accounts (a ∷ []) d.0 (h.0, tt),
  DistinctNames-append accounts a d.1 h.1,
)

-- A change that keeps the name.
DistinctNames-set :
    (accounts : List Account) (i : ℕ) (a v : Account)
    → get_elem? accounts i ≡ some a
    → v.name ≡ a.name
    → DistinctNames accounts
    → DistinctNames (set accounts i v)
DistinctNames-set [] i a v e n d = tt
DistinctNames-set (x ∷ accounts) zero a v e n d =
    let same : x ≡ a = cc in
    (
      All-imp (λ y. x.name ≢ y.name) (λ y. v.name ≢ y.name) accounts
          (λ y h k. h (ap (λ (z : Account). z.name) same ∙ sym n ∙ k)) d.0,
      d.1,
    )
DistinctNames-set (x ∷ accounts) (suc i) a v e n d = (
  All-set (λ y. x.name ≢ y.name) accounts i v d.0
      (λ k. All-get_elem? (λ y. x.name ≢ y.name) accounts i d.0 e (k ∙ n)),
  DistinctNames-set accounts i a v e n d.1,
)

pub in_use-cases :
    (b : Bank)
    → (in_use b ≡ none)
      ⊎ ((i : ℕ) × (a : Account) × (in_use b ≡ some (i, a))
          × (b.current ≡ some i)
          × (get_elem? b.accounts i ≡ some a))
unfolding in_use
in_use-cases b = elim (Option-cases b.current) [
  | inl nobody ↦ inl (ground arith)
  | inr (i, is) ↦ elim (Option-cases (get_elem? b.accounts i)) [
    | inl missing ↦ inl (ground arith)
    | inr (a, at) ↦ inr (i, a, ground arith, is, at)
  ]
]

-- A change of the balance of the account in use.
pub apply-IsSound :
    (b : Bank) (change : Account → Account)
    → ((a : Account) → (change a).name ≡ a.name)
    → ((a : Account) → InRange a → InRange (change a))
    → IsSound b
    → IsSound (apply b change).0
unfolding apply
apply-IsSound b change named ranged s = elim (in_use-cases b) [
  | inl nobody ↦ rw (nobody, apply) s
  | inr (i, a, used, is, at) ↦
      rw (used, apply)
        (record {
          names = DistinctNames-set b.accounts i a (change a) at (named a) s.names;
          balances =
              All-set InRange b.accounts i (change a) s.balances
                (ranged a (All-get_elem? InRange b.accounts i s.balances at));
          used = inr (
            i,
            is,
            omega (arith, length-set b.accounts i (change a), get_elem?-lt b.accounts i at),
          );
        })
]

log_in-IsSound : (b : Bank) (name password : Bytes) → IsSound b → IsSound (log_in b name password).0
unfolding log_in
log_in-IsSound b name password s = elim (Option-cases (position name b.accounts)) [
  | inl unknown ↦
      let a = Account.new_account name password in
      rw (unknown, log_in)
        (record {
          names = DistinctNames-append b.accounts a s.names (position-none name b.accounts unknown);
          balances = All-append InRange b.accounts (a ∷ []) s.balances (omega arith, tt);
          used = inr (length b.accounts, refl, omega (arith, length-append b.accounts (a ∷ [])));
        })
  | inr (i, known) ↦
      let (a, at, is) = position-some name b.accounts i known in
      rw (known, log_in)
        (record {
          names = s.names;
          balances = s.balances;
          used = inr (i, refl, get_elem?-lt b.accounts i at);
        })
]

credit-InRange : (a : Account) (amount : ℕ) → InRange a → InRange (credit a amount)
unfolding credit
credit-InRange a amount h = ground arith

debit-InRange : (a : Account) (amount : ℕ) → InRange a → InRange (debit a amount)
unfolding debit
debit-InRange a amount h = ground arith

pub credit-name : (a : Account) (amount : ℕ) → (let v = credit a amount in v.name ≡ a.name)
unfolding credit
credit-name a amount = ground arith

pub debit-name : (a : Account) (amount : ℕ) → (let v = debit a amount in v.name ≡ a.name)
unfolding debit
debit-name a amount = ground arith

-- Every request keeps a bank sound: names stay unique, so that a login finds the one account of
-- its name, balances stay 64-bit numbers, and the account in use exists.
pub serve-IsSound : (b : Bank) (r : Request) → IsSound b → IsSound (serve b r).0
unfolding serve
serve-IsSound b (new_account name password) s = log_in-IsSound b name password s
serve-IsSound b (my_deposit amount) s =
    apply-IsSound b (λ a. credit a amount) (λ a. credit-name a amount)
      (λ a h. credit-InRange a amount h) s
serve-IsSound b (my_withdraw amount) s =
    apply-IsSound b (λ a. debit a amount) (λ a. debit-name a amount)
      (λ a h. debit-InRange a amount h) s
