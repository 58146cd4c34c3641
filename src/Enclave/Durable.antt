-- ===== src/Enclave/Durable.antt =====
-- What the enclave answers while the host cannot write the file.
use seccap_sgx_bank.Base.{
  Option-cases, Bool-cases, get_elem?, ℕ, ◌≡◌, refl, subst, inl, inr, ◌⊎◌, sym, ap, not, none, some,
  Option, List, [], ◌∷◌, bytes_eq, if◌then◌else◌, arith, Bytes,
}
use mathlib.Core.Option
use seccap_sgx_bank.CLib.{strcmp_eq}
use seccap_sgx_bank.UserTypes.{ProcessResult, process_success, account_set_fail, to_ℕ, need_logout}
use seccap_sgx_bank.Account.{Account}
use seccap_sgx_bank.Sgx.{Sgx}
use seccap_sgx_bank.Bank.{Request, new_account, my_deposit, my_withdraw, Answer, balance, result}
use seccap_sgx_bank.World.{
  World, M, DealManager, dangling_pointer, Result, ok, stop, pure, null_pointer, ◌>>=◌, ◌>>◌,
}
use seccap_sgx_bank.World.Preserves.{
  Preserves, Stops, stopping, IsStopped, go_on_with, go_on_with-IsStopped,
}
use seccap_sgx_bank.Host.{ocall_account_list_store}
use seccap_sgx_bank.Host.Refused.{Refusal, shut, absent, failing, Refused, refused}
use seccap_sgx_bank.Sealing.Refused.{sealing-Refused}
use seccap_sgx_bank.DealManager.Refused.{
  set_current_account-Refused, deal_my_deposit-Refused, deal_my_withdraw-Refused, load_all-Refused,
  marshal_all-Refused,
}
use seccap_sgx_bank.DealManager.{
  account_login, current, set_current_account, deal_my_deposit, deal_my_withdraw,
  account_list_store_storage,
}
use seccap_sgx_bank.Enclave.{
  find_account, existing_account, fresh_account, ecall_new_account, ecall_my_deposit,
  ecall_my_withdraw,
}
use seccap_sgx_bank.Enclave.Refused.{
  ecall_new_account-Refused, ecall_my_deposit-Refused, ecall_my_withdraw-Refused,
}
use seccap_sgx_bank.Enclave.Refinement.{call}

module _ {k : Refusal} where
  ocall_account_list_store-Stops :
      (text : Bytes) → Stops (Refused k) (ocall_account_list_store text)
  unfolding ocall_account_list_store
  ocall_account_list_store-Stops text = record {
    at = elim k [
      | shut f ↦ λ w h. let y = h.why in ground arith
      | absent ↦ λ w h. let y = h.why in ground arith
      | failing ↦ λ w h. let y = h.why in ground arith
    ];
  }

  module _ (sgx : Sgx) where
    store_storage-Stops : Stops (Refused k) (account_list_store_storage sgx)
    unfolding account_list_store_storage
    store_storage-Stops =
        search
          (
            refused, stopping, load_all-Refused, marshal_all-Refused, sealing-Refused,
            ocall_account_list_store-Stops,
          )
          depth 14

    fresh_account-Stops :
        (name : Bytes) (password : Option Bytes)
        → Stops (Refused k) (fresh_account sgx name password)
    unfolding fresh_account
    fresh_account-Stops name password =
        search (refused, stopping, set_current_account-Refused, store_storage-Stops) depth 14

    deposit-Stops :
        (amount : ℕ)
        → Stops (Refused k) (do
          deal_my_deposit amount
          account_list_store_storage sgx
          (p, a) ← current
          pure a.deposits)
    deposit-Stops amount =
        search (refused, stopping, deal_my_deposit-Refused, store_storage-Stops) depth 8

    withdraw-Stops :
        (amount : ℕ)
        → Stops (Refused k) (do
          deal_my_withdraw amount
          account_list_store_storage sgx
          (p, a) ← current
          pure a.deposits)
    withdraw-Stops amount =
        search (refused, stopping, deal_my_withdraw-Refused, store_storage-Stops) depth 8

-- The same file, and the same accounts at the same places.
pub record Unchanged (w w' : World) : Type 0 where
  pub file : w'.file ≡ w.file
  pub heap : w'.heap ≡ w.heap
  pub listed :
      Option.map (λ (m : DealManager). m.account_list) w'.deal_manager
      ≡ Option.map (λ (m : DealManager). m.account_list) w.deal_manager

Unchanged-refl : (w : World) → Unchanged w w
Unchanged-refl w = record { file = refl; heap = refl; listed = refl }

-- Looking for an account changes nothing.
find_account-same :
    (name : Bytes) (ps : List ℕ) (w : World)
    → (r : Result (Option (ℕ × Account))) × (find_account name ps w ≡ (r, w))
unfolding find_account
find_account-same name [] w = (ok none, refl)
find_account-same name (p ∷ ps) w =
    let (r, e) = find_account-same name ps w in
    elim (Option-cases (get_elem? w.heap p)) [
      | inl missing ↦ (stop dangling_pointer, ground arith)
      | inr (a, found) ↦ elim (Bool-cases (bytes_eq name a.name)) [
        | inl same ↦ (ok (some (p, a)), ground arith)
        | inr other ↦ (r, ground (arith, e))
      ]
    ]

-- No customer is served.
abbrev pub Nobody : World → Type 0
Nobody w = (m : DealManager) × (w.deal_manager ≡ some m) × (m.current_account ≡ none)

-- The answer to a deposit or a withdrawal that was not made.
abbrev pub Undone : Request → World → Answer → Type 0
Undone (new_account name password) w a = Unit
Undone (my_deposit amount) w a = (a ≡ balance (to_ℕ need_logout)) × Nobody w
Undone (my_withdraw amount) w a = (a ≡ balance (to_ℕ need_logout)) × Nobody w

abbrev Harmless : Request → World → Result Answer × World → Type 0
Harmless r w (ok a, w') = Unchanged w w' × Undone r w a
Harmless r w (stop s, w') = Unit

-- An answer leaves the file and the accounts, a stop the host's refusal.
abbrev pub Spares : Refusal → Request → World → Result Answer × World → Type 0
Spares k r w (ok a, w') = Unchanged w w' × Undone r w a
Spares k r w (stop s, w') = Refused k w'

Harmless-Spares :
    (k : Refusal) (r : Request) (w : World) (p : Result Answer × World)
    → Harmless r w p
    → Refused k (p.1)
    → Spares k r w p
Harmless-Spares k r w (ok a, w') h refused_still = h
Harmless-Spares k r w (stop s, w') h refused_still = refused_still

stopped-Harmless :
    (r : Request) (w : World) (p : Result Answer × World) → IsStopped p → Harmless r w p
stopped-Harmless r w (ok a, w') h = absurd h
stopped-Harmless r w (stop s, w') h = tt

-- A tail that never returns is reached only where a customer is served.
abbrev if_served : M ℕ → M ℕ
if_served tail = do logged_in ← account_login; if logged_in then tail else pure (to_ℕ need_logout)

if_served-cases :
    (tail : M ℕ) (k : Refusal) (w : World)
    → Stops (Refused k) tail
    → Refused k w
    → ((if_served tail w ≡ (ok (to_ℕ need_logout), w)) × Nobody w) ⊎ IsStopped (if_served tail w)
unfolding account_login
if_served-cases tail k w s h = elim (Option-cases w.deal_manager) [
  | inl missing ↦
      let e : if_served tail w ≡ (stop null_pointer, w) = ground arith in
      inr (subst IsStopped (sym e) tt)
  | inr (m, is) ↦ elim (Option-cases m.current_account) [
    | inl nobody ↦ inl (ground arith, (m, is, nobody))
    | inr (p, served) ↦
        let e : if_served tail w ≡ tail w = ground arith in inr (subst IsStopped (sym e) (s.at w h))
  ]
]

-- A deposit or a withdrawal that returns found nobody served.
balance-Harmless :
    (m : M ℕ) (r : Request) (w : World)
    → (Nobody w → Undone r w (balance (to_ℕ need_logout)))
    → ((m w ≡ (ok (to_ℕ need_logout), w)) × Nobody w) ⊎ IsStopped (m w)
    → Harmless r w ((do n ← m; pure (balance n)) w)
balance-Harmless m r w u (inl (e, nobody)) =
    subst (Harmless r w) (sym (ap (go_on_with (λ n. pure (balance n))) e))
      (Unchanged-refl w, u nobody)
balance-Harmless m r w u (inr s) =
    stopped-Harmless r w _ (go_on_with-IsStopped (λ n. pure (balance n)) (m w) s)

module _ (sgx : Sgx) where
  -- A login that returns found the account.
  found-Harmless :
      (k : Refusal) (name password : Bytes) (w : World) (m : DealManager)
      (r : Result (Option (ℕ × Account)))
      → Refused k w
      → w.deal_manager ≡ some m
      → find_account name m.account_list w ≡ (r, w)
      → Harmless (new_account name password) w (call sgx (new_account name password) w)
  unfolding call ecall_new_account existing_account set_current_account
  found-Harmless k name password w m (stop s) h is e =
      let run : call sgx (new_account name password) w ≡ (stop s, w) = ground (arith, e) in
      subst (Harmless (new_account name password) w) (sym run) tt
  found-Harmless k name password w m (ok none) h is e =
      let fresh = fresh_account-Stops {k = k} sgx name (some password) in
      let run : call sgx (new_account name password) w
          ≡ go_on_with (λ r. pure (result r)) (fresh_account sgx name (some password) w) =
        ground (arith, e) in
      subst (Harmless (new_account name password) w) (sym run) (
        stopped-Harmless (new_account name password) w _ (
          go_on_with-IsStopped (λ r. pure (result r)) (fresh_account sgx name (some password) w)
            (fresh.at w h)))
  found-Harmless k name password w m (ok (some (p, a))) h is e =
      let w' = record w { deal_manager = some (record m { current_account = some p }) } in
      let run : (r : ProcessResult) × (call sgx (new_account name password) w
            ≡ (ok (result r), w')) =
        (
          if not (strcmp_eq password a.password) then account_set_fail else process_success,
          ground (arith, e),
        ) in
      subst (Harmless (new_account name password) w) (sym run.1) (
        record {
          file = refl;
          heap = refl;
          listed = sym (ap (Option.map (λ (x : DealManager). x.account_list)) is);
        },
        tt,
      )

  new_account-Harmless :
      (k : Refusal) (name password : Bytes) (w : World)
      → Refused k w
      → Harmless (new_account name password) w (call sgx (new_account name password) w)
  unfolding call ecall_new_account
  new_account-Harmless k name password w h = elim (Option-cases w.deal_manager) [
    | inl missing ↦
        let run : call sgx (new_account name password) w ≡ (stop null_pointer, w) = ground arith in
        subst (Harmless (new_account name password) w) (sym run) tt
    | inr (m, is) ↦
        let (r, e) = find_account-same name m.account_list w in
        found-Harmless k name password w m r h is e
  ]

  call-Harmless :
      (k : Refusal) (r : Request) (w : World) → Refused k w → Harmless r w (call sgx r w)
  unfolding call ecall_my_deposit ecall_my_withdraw
  call-Harmless k (new_account name password) w h = new_account-Harmless k name password w h
  call-Harmless k (my_deposit amount) w h =
      balance-Harmless (ecall_my_deposit sgx amount) (my_deposit amount) w
        (λ nobody. (refl, nobody)) (if_served-cases _ k w (deposit-Stops sgx amount) h)
  call-Harmless k (my_withdraw amount) w h =
      balance-Harmless (ecall_my_withdraw sgx amount) (my_withdraw amount) w
        (λ nobody. (refl, nobody)) (if_served-cases _ k w (withdraw-Stops sgx amount) h)

  call-still : (k : Refusal) (r : Request) → Preserves (Refused k) (call sgx r)
  unfolding call
  call-still k (new_account name password) = search (refused, ecall_new_account-Refused) depth 8
  call-still k (my_deposit amount) = search (refused, ecall_my_deposit-Refused) depth 8
  call-still k (my_withdraw amount) = search (refused, ecall_my_withdraw-Refused) depth 8

  -- Where the host cannot write the file, because it cannot be opened for writing, is not there, or
  -- a write to it is seen to fail, a login, a deposit or a withdrawal that is answered has changed
  -- neither an account nor the file: the listed accounts are the same objects with the same
  -- contents. A deposit or a withdrawal is answered only where no customer is served, and by
  -- NEED_LOGOUT. A run that stops leaves the file as little writable, and, where it could not be
  -- opened or is not there, as it was. A failure that shows only when the file is closed is not
  -- covered.
  pub call-Refused :
      (k : Refusal) (r : Request) (w : World) → Refused k w → Spares k r w (call sgx r w)
  call-Refused k r w h =
      let still = call-still k r in
      Harmless-Spares k r w (call sgx r w) (call-Harmless k r w h) (still.at w h)
