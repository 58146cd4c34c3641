-- ===== src/Server/Perform.antt =====
-- The parts of a message's execution against Server/Respond.antt.
use seccap_sgx_bank.Base.{
  ℕ, ◌≡◌, ◌⊎◌, inl, inr, refl, subst, Option, none, some, Bool-cases, List, [], ◌∷◌, ◌++◌, All,
  arith, Bytes,
}
use seccap_sgx_bank.CLib.{c_str, strncmp_eq, print_ld, atoi}
use seccap_sgx_bank.UserTypes.{
  ProcessResult, process_success, account_set_fail, deposit_overflow, need_logout,
}
use seccap_sgx_bank.Account.{Account}
use seccap_sgx_bank.Bank.{credit, debit}
use seccap_sgx_bank.Bank.{Bank, log_in, in_use, apply}
use seccap_sgx_bank.Sgx.{Sgx, SgxLaws}
use seccap_sgx_bank.World.{
  World, M, pure, ◌>>=◌, Result, ok, stop, null_pointer, login_start, deposit_start, withdraw_start,
}
use seccap_sgx_bank.DealManager.{current, set_current_account}
use seccap_sgx_bank.DealManager.Parse.{IsField}
use seccap_sgx_bank.Enclave.{ecall_new_account, ecall_my_inquiry}
use seccap_sgx_bank.Enclave.Inv.{Inv, Fits, Inv-console}
use seccap_sgx_bank.Enclave.Change.{current-cases}
use seccap_sgx_bank.Enclave.Serve.{ecall_my_deposit-apply, ecall_my_withdraw-apply}
use seccap_sgx_bank.Enclave.Login.{IsCredential, find_account-Finds, ecall_new_account-log_in}
use seccap_sgx_bank.Server.Cut.{c_str-IsText, c_str-IsField}
use seccap_sgx_bank.Server.Respond.{
  Response, printed, greet, tell_withdrawn, on_login, on_deposit, on_withdraw, perform,
}
use seccap_sgx_bank.Server.{
  Machine, Outcome, reply, codes, sprintf_new, read_amount, login_process, deposit_process,
  withdraw_process, execute,
}

c_str-IsCredential : (s : Bytes) → IsField s → IsCredential (c_str s)
c_str-IsCredential s h = record { text = c_str-IsText s; field = c_str-IsField s h }

module _ (sgx : Sgx) where
  -- After a run that has not stopped, the state stands for the bank.
  abbrev pub Keeps : {A : Type 0} → Result A → Bank → World → Type 0
  Keeps (ok a) b w = Inv sgx b w
  Keeps (stop s) b w = Unit

  -- A run has the result of the response and, unless it has stopped, its bank.
  abbrev pub Gives : {A : Type 0} → Result A × World → Response A → Type 0
  Gives run (r, b) = (w : World) × (run ≡ (r, w)) × Keeps r b w

  pub Keeps-Inv : {A : Type 0} (r : Result A) (b : Bank) (w : World) → Inv sgx b w → Keeps r b w
  Keeps-Inv (ok a) b w v = v
  Keeps-Inv (stop s) b w v = tt

  -- The balance of the account in use.
  ecall_my_inquiry-in_use :
      (b : Bank) (w : World)
      → Inv sgx b w
      → ((in_use b ≡ none) × (ecall_my_inquiry w ≡ (stop null_pointer, w)))
        ⊎ ((i : ℕ) × (a : Account) × (in_use b ≡ some (i, a))
            × (ecall_my_inquiry w ≡ (ok a.deposits, w)))
  unfolding ecall_my_inquiry in_use current
  ecall_my_inquiry-in_use b w v = elim (current-cases sgx b w (v.live)) [
    | inl nobody ↦ let l = v.live in let is = l.manager_is in inl (ground arith, ground arith)
    | inr (i, p, a, u, here) ↦ let run = u.in_enclave in inr (i, a, u.in_bank, ground arith)
  ]

  module _ (machine : Machine) where
    module _ (laws : SgxLaws sgx) where
      deposit_process-on_deposit :
          (b : Bank) (w : World) (f : Bytes) (fields : List Bytes)
          → Inv sgx b w
          → Gives (deposit_process machine sgx (f ∷ fields) w) (on_deposit machine b fields)
      unfolding deposit_process on_deposit read_amount sprintf_new
      deposit_process-on_deposit b w f [] v =
          (record w { console = w.console ++ deposit_start ∷ [] }, refl, tt)
      deposit_process-on_deposit b w f (text ∷ fields) v =
          let amount = atoi (machine.atoi_open) (c_str text) in
          let w₁ = record w { console = w.console ++ deposit_start ∷ [] } in
          let (b', n) = apply b (λ a. credit a amount) in
          let (w₂, run, inv) =
            ecall_my_deposit-apply sgx laws b w₁ amount (Inv-console sgx b _ w v) in
          (w₂, ground (arith, run), Keeps-Inv (printed machine 8 (print_ld n)) b' w₂ inv)

      withdraw_process-on_withdraw :
          (b : Bank) (w : World) (f : Bytes) (fields : List Bytes)
          → Inv sgx b w
          → Gives (withdraw_process machine sgx (f ∷ fields) w) (on_withdraw machine b fields)
      unfolding withdraw_process on_withdraw read_amount sprintf_new
      withdraw_process-on_withdraw b w f [] v =
          (record w { console = w.console ++ withdraw_start ∷ [] }, refl, tt)
      withdraw_process-on_withdraw b w f (text ∷ fields) v =
          let amount = atoi (machine.atoi_open) (c_str text) in
          let w₁ = record w { console = w.console ++ withdraw_start ∷ [] } in
          let (b', n) = apply b (λ a. debit a amount) in
          let (w₂, run, inv) =
            ecall_my_withdraw-apply sgx laws b w₁ amount (Inv-console sgx b _ w v) in
          (w₂, ground (arith, run), Keeps-Inv (tell_withdrawn machine amount (b', n)).0 b' w₂ inv)

      -- A login of which the name or the password is missing.
      ecall_new_account-missing :
          (b : Bank) (w : World) (name : Option Bytes)
          → Inv sgx b w
          → (w' : World) × (ecall_new_account sgx name none w ≡ (stop null_pointer, w'))
      unfolding ecall_new_account set_current_account
      ecall_new_account-missing b w none v =
          let l = v.live in let is = l.manager_is in (w, ground arith)
      ecall_new_account-missing b w (some name) v =
          let l = v.live in
          let m = l.manager in
          let is = l.manager_is in
          elim (find_account-Finds name m.account_list b.accounts w l.shows) [
            | inl (unknown, e) ↦ (w, ground arith)
            | inr (i, q, a, known, at, found, e) ↦ (
              record w { deal_manager = some (record m { current_account = some q }) },
              ground arith,
            )
          ]

      -- What `login_process` does with the result of the ecall.
      abbrev after_login : ProcessResult → M Outcome
      after_login result = elim result [
        | account_set_fail ↦ pure (reply (codes "login fail."))
        | _ ↦ do
          deposits ← ecall_my_inquiry
          send_data ← sprintf_new machine 13 (codes "login" ++ print_ld deposits)
          pure (reply send_data)
      ]

      greet-bank : (b : Bank) (r : ProcessResult) → (greet machine (b, r)).1 ≡ b
      unfolding greet
      greet-bank b account_set_fail = refl
      greet-bank b _ = refl

      shown-in_use :
          (b : Bank) (w : World)
          → Inv sgx b w
          → Gives (after_login process_success w) (greet machine (b, process_success))
      unfolding greet sprintf_new
      shown-in_use b w v = elim (ecall_my_inquiry-in_use b w v) [
        | inl (nobody, run) ↦
            (w, ground (arith, run), Keeps-Inv (greet machine (b, process_success)).0 b w v)
        | inr (i, a, used, run) ↦
            (w, ground (arith, run), Keeps-Inv (greet machine (b, process_success)).0 b w v)
      ]

      after_login-greet :
          (b : Bank) (w : World) (r : ProcessResult)
          → Inv sgx b w
          → Gives (after_login r w) (greet machine (b, r))
      unfolding greet
      after_login-greet b w account_set_fail v = (w, refl, v)
      after_login-greet b w process_success v = shown-in_use b w v
      after_login-greet b w deposit_overflow v = shown-in_use b w v
      after_login-greet b w need_logout v = shown-in_use b w v

      login_process-on_login :
          (b : Bank) (w : World) (f : Bytes) (fields : List Bytes)
          → Inv sgx b w
          → All IsField fields
          → Fits sgx (let (r, b') = on_login machine b fields in b'.accounts)
          → Gives (login_process machine sgx (f ∷ fields) w) (on_login machine b fields)
      unfolding login_process on_login sprintf_new
      login_process-on_login b w f [] v h fits =
          let w₁ = record w { console = w.console ++ login_start ∷ [] } in
          let (w', run) = ecall_new_account-missing b w₁ none (Inv-console sgx b _ w v) in
          (w', ground (arith, run), tt)
      login_process-on_login b w f (name ∷ []) v h fits =
          let w₁ = record w { console = w.console ++ login_start ∷ [] } in
          let (w', run) =
            ecall_new_account-missing b w₁ (some (c_str name)) (Inv-console sgx b _ w v) in
          (w', ground (arith, run), tt)
      login_process-on_login b w f (name ∷ password ∷ fields) v h fits =
          let w₁ = record w { console = w.console ++ login_start ∷ [] } in
          let (b', r) = log_in b (c_str name) (c_str password) in
          let (w₂, run, inv) =
            ecall_new_account-log_in sgx laws b w₁ (c_str name) (c_str password)
              (Inv-console sgx b _ w v) (c_str-IsCredential name h.0)
              (c_str-IsCredential password h.1.0)
              (subst (λ (x : Bank). Fits sgx x.accounts) (greet-bank b' r) fits) in
          let (w₃, shown, kept) = after_login-greet b' w₂ r inv in
          (w₃, ground (arith, run, shown), kept)

      pub execute-perform :
          (b : Bank) (w : World) (buf f : Bytes) (fields : List Bytes)
          → Inv sgx b w
          → All IsField fields
          → Fits sgx (let (r, b') = perform machine b buf (f ∷ fields) in b'.accounts)
          → Gives
              (execute machine sgx buf (c_str f) (f ∷ fields) w)
              (perform machine b buf (f ∷ fields))
      unfolding execute perform
      execute-perform b w buf f fields v h fits =
          elim (Bool-cases (strncmp_eq (codes "login") (c_str f) 5)) [
            | inl e ↦ rw e (login_process-on_login b w f fields v h (rw e at fits))
            | inr e ↦ elim (Bool-cases (strncmp_eq (codes "deposit") (c_str f) 7)) [
              | inl e' ↦ rw (e, e') (deposit_process-on_deposit b w f fields v)
              | inr e' ↦ elim (Bool-cases (strncmp_eq (codes "withdraw") (c_str f) 8)) [
                | inl d ↦ rw (e, e', d) (withdraw_process-on_withdraw b w f fields v)
                | inr d ↦ elim (Bool-cases (strncmp_eq (codes "end") buf 3)) [
                  | inl end ↦ rw (e, e', d, end) (w, refl, v)
                  | inr other ↦ rw (e, e', d, other) (w, refl, v)
                ]
              ]
            ]
          ]
