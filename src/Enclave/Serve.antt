-- ===== src/Enclave/Serve.antt =====
-- Deposits and withdrawals by `ecallMyDeposit` and `ecallMyWithdraw` do what the bank does.
use seccap_sgx_bank.Base.{
  ℕ, zero, suc, ◌≡◌, ◌≢◌, inl, inr, ap, none, some, List, [], ◌∷◌, get_elem?, set, get_elem?-lt,
  get_elem?-set_self, All-get_elem?, if◌then◌else◌, arith,
}
use seccap_sgx_bank.Account.{Account, withdraw, deposit}
use seccap_sgx_bank.Bank.{debit, credit}
use seccap_sgx_bank.Account.Balance.{InRange}
use seccap_sgx_bank.UserTypes.{to_ℕ, need_logout}
use seccap_sgx_bank.Bank.{Bank, in_use, apply}
use seccap_sgx_bank.Sgx.{Sgx, SgxLaws}
use seccap_sgx_bank.World.{World, M, ok, ◌>>=◌, ◌>>◌, pure}
use seccap_sgx_bank.DealManager.{
  account_login, current, deal_my_deposit, deal_my_withdraw, account_list_store_storage,
}
use seccap_sgx_bank.DealManager.Parse.{IsStorable}
use seccap_sgx_bank.Enclave.{ecall_my_deposit, ecall_my_withdraw}
use seccap_sgx_bank.Enclave.Inv.{Live, Inv, store_storage-Inv}
use seccap_sgx_bank.Enclave.Change.{Rebalanced, Used, current-cases, Live-change}

-- What `Withdraw` and `Deposit` leave of an account is what the bank promises.
withdraw-debit : (a : Account) (amount : ℕ) → InRange a → (withdraw a amount).0 ≡ debit a amount
unfolding withdraw debit
withdraw-debit a amount h = ground arith

pub deposit-credit : (a : Account) (amount : ℕ) → InRange a → (deposit a amount).0 ≡ credit a amount
unfolding deposit credit
deposit-credit a amount h = ground arith

debit-Rebalanced : (a : Account) (amount : ℕ) → InRange a → Rebalanced a (debit a amount)
unfolding debit
debit-Rebalanced a amount h = record { same = ground arith; in_range = ground arith }

pub credit-Rebalanced : (a : Account) (amount : ℕ) → InRange a → Rebalanced a (credit a amount)
unfolding credit
credit-Rebalanced a amount h = record { same = ground arith; in_range = ground arith }

pub set-ne-nil :
    (accounts : List Account) (i : ℕ) (v : Account) {a : Account}
    → get_elem? accounts i ≡ some a
    → set accounts i v ≢ []
set-ne-nil [] i v e = cc
set-ne-nil (x ∷ accounts) zero v e = λ h. cc
set-ne-nil (x ∷ accounts) (suc i) v e = λ h. cc

apply-none : (b : Bank) (change : Account → Account) → b.current ≡ none → apply b change ≡ (b, 2)
unfolding apply
apply-none b change e = ground arith

pub apply-some :
    (b : Bank) (change : Account → Account) {i : ℕ} {a : Account}
    → in_use b ≡ some (i, a)
    → apply b change ≡ (record b { accounts = set b.accounts i (change a) }, (change a).deposits)
unfolding apply
apply-some b change e = ground arith

module _ (sgx : Sgx) (laws : SgxLaws sgx) where
  -- The tail that both ecalls share.
  abbrev store_and_read : M ℕ
  store_and_read = do account_list_store_storage sgx; (p, a) ← current; pure a.deposits

  store_and_read-Inv :
      (b : Bank) (w : World) (l : Live sgx b w) (i p : ℕ) (a v : Account)
      → Used sgx b w l i p a
      → Rebalanced a v
      → (let m = l.manager in m.current_account ≡ some p)
      → (w' : World) × (store_and_read (record w { heap = set w.heap p v }) ≡ (ok v.deposits, w'))
        × Inv sgx (record b { accounts = set b.accounts i v }) w'
  unfolding current
  store_and_read-Inv b w l i p a v u r here =
      let w₁ = record w { heap = set w.heap p v } in
      let (w', run, heap, manager, inv) =
        store_storage-Inv sgx laws (record b { accounts = set b.accounts i v }) w₁
          (set-ne-nil b.accounts i v u.at_position) (Live-change sgx b w l i p a v u r) in
      let is = l.manager_is in
      (
        w',
        ground (
          arith,
          run,
          heap,
          manager,
          is,
          here,
          get_elem?-set_self w.heap p v (get_elem?-lt w.heap p u.on_heap),
        ),
        inv,
      )

  -- The form of both ecalls, around `DealMyDeposit` or `DealMyWithdraw`.
  abbrev dealing : M (Unit {0}) → M ℕ
  dealing deal = do
    logged_in ← account_login
    if logged_in then (do deal; store_and_read) else pure (to_ℕ need_logout)

  dealing-apply :
      (b : Bank) (w : World) (deal : M (Unit {0})) (change : Account → Account)
      → ((a : Account) → InRange a → Rebalanced a (change a))
      → ((p : ℕ) (a : Account)
          → InRange a
          → current w ≡ (ok (p, a), w)
          → deal w ≡ (ok tt, record w { heap = set w.heap p (change a) }))
      → Inv sgx b w
      → (w' : World) × (dealing deal w ≡ (ok (apply b change).1, w'))
        × Inv sgx (apply b change).0 w'
  unfolding account_login
  dealing-apply b w deal change keeps deals v =
      let l = v.live in
      let m = l.manager in
      let is = l.manager_is in
      elim (current-cases sgx b w l) [
        | inl (nobody, none_here) ↦
            let same = apply-none b change nobody in
            (w, ground (arith, ap (λ (r : Bank × ℕ). r.1) same), rw same v)
        | inr (i, p, a, u, here) ↦
            let stored = All-get_elem? IsStorable b.accounts i l.storable u.at_position in
            let (w', run, inv) =
              store_and_read-Inv b w l i p a (change a) u (keeps a stored.in_range) here in
            rw (apply-some b change u.in_bank)
              (w', ground (arith, deals p a stored.in_range u.in_enclave, run), inv)
      ]

  -- On a state that stands for a bank, `ecallMyDeposit` answers what the bank answers, and leads
  -- to a state that stands for the bank afterwards, with the file up to date.
  pub ecall_my_deposit-apply :
      (b : Bank) (w : World) (amount : ℕ)
      → Inv sgx b w
      → let (b', n) = apply b (λ a. credit a amount) in
        (w' : World) × (ecall_my_deposit sgx amount w ≡ (ok n, w')) × Inv sgx b' w'
  unfolding ecall_my_deposit deal_my_deposit
  ecall_my_deposit-apply b w amount v =
      dealing-apply b w (deal_my_deposit amount) (λ a. credit a amount)
        (λ a h. credit-Rebalanced a amount h)
        (λ p a h e. let same = deposit-credit a amount h in ground arith) v

  -- On a state that stands for a bank, `ecallMyWithdraw` answers what the bank answers, and leads
  -- to a state that stands for the bank afterwards, with the file up to date.
  pub ecall_my_withdraw-apply :
      (b : Bank) (w : World) (amount : ℕ)
      → Inv sgx b w
      → let (b', n) = apply b (λ a. debit a amount) in
        (w' : World) × (ecall_my_withdraw sgx amount w ≡ (ok n, w')) × Inv sgx b' w'
  unfolding ecall_my_withdraw deal_my_withdraw
  ecall_my_withdraw-apply b w amount v =
      dealing-apply b w (deal_my_withdraw amount) (λ a. debit a amount)
        (λ a h. debit-Rebalanced a amount h)
        (λ p a h e. let same = withdraw-debit a amount h in ground arith) v
