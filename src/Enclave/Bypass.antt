-- ===== src/Enclave/Bypass.antt =====
-- What a login with a wrong password leaves behind.
use seccap_sgx_bank.Base.{
  ℕ, ◌-◌, ◌≤◌, ◌≡◌, ◌≢◌, refl, subst, ◌∙◌, some, get_elem?, set, bytes_eq_iff, All-get_elem?, arith,
  Bytes,
}
use seccap_sgx_bank.Account.{Account}
use seccap_sgx_bank.Bank.{debit}
use seccap_sgx_bank.UserTypes.{ProcessResult, account_set_fail}
use seccap_sgx_bank.Bank.{Bank, position, in_use, log_in, apply}
use seccap_sgx_bank.Sgx.{Sgx, SgxLaws}
use seccap_sgx_bank.World.{World, M, ok, ◌>>=◌, pure}
use seccap_sgx_bank.DealManager.Parse.{IsStorable}
use seccap_sgx_bank.Enclave.{ecall_new_account, ecall_my_withdraw}
use seccap_sgx_bank.Enclave.Inv.{Inv}
use seccap_sgx_bank.Enclave.Login.{IsCredential, log_in-some, ecall_new_account-log_in}
use seccap_sgx_bank.Enclave.Serve.{apply-some, ecall_my_withdraw-apply}

module _ (sgx : Sgx) where
  -- A customer tries a password and then withdraws, whatever the answer was.
  unfoldable pub log_in_and_withdraw : Bytes → Bytes → ℕ → M (ProcessResult × ℕ)
  log_in_and_withdraw name password amount = do
    r ← ecall_new_account sgx (some name) (some password)
    n ← ecall_my_withdraw sgx amount
    pure (r, n)

  debit-deposits :
      (a : Account) (amount : ℕ)
      → IsStorable a
      → amount ≤ a.deposits
      → debit a amount ≡ record a { deposits = a.deposits - amount }
  unfolding debit
  debit-deposits a amount s h = let r = s.in_range in ground arith

  in_use-some :
      (b : Bank) {i : ℕ} {a : Account}
      → b.current ≡ some i
      → get_elem? b.accounts i ≡ some a
      → in_use b ≡ some (i, a)
  unfolding in_use
  in_use-some b e f = ground arith

  log_in-refused :
      (b : Bank) (name password : Bytes) {i : ℕ} {a : Account}
      → position name b.accounts ≡ some i
      → get_elem? b.accounts i ≡ some a
      → password ≢ a.password
      → log_in b name password ≡ (record b { current = some i }, account_set_fail)
  log_in-refused b name password {a = a} known found wrong =
      log_in-some b name password known found ∙ ground (arith, bytes_eq_iff password a.password)

  apply-withdraw :
      (b : Bank) (amount : ℕ) {i : ℕ} {a : Account}
      → in_use b ≡ some (i, a)
      → IsStorable a
      → amount ≤ a.deposits
      → apply b (λ x. debit x amount) ≡ (
        record b { accounts = set b.accounts i (record a { deposits = a.deposits - amount }) },
        a.deposits - amount,
      )
  apply-withdraw b amount {a = a} e s h =
      apply-some b (λ x. debit x amount) e ∙ rw (debit-deposits a amount s h)

  -- The ecalls, by the bank that they lead to and their answer.
  abbrev LogsIn : World → Bytes → Bytes → Bank × ProcessResult → Type 0
  LogsIn w name password (b, r) =
      (w' : World) × (ecall_new_account sgx (some name) (some password) w ≡ (ok r, w'))
      × Inv sgx b w'

  abbrev Withdraws : World → ℕ → Bank × ℕ → Type 0
  Withdraws w amount (b, n) =
      (w' : World) × (ecall_my_withdraw sgx amount w ≡ (ok n, w')) × Inv sgx b w'

  module _ (laws : SgxLaws sgx) where
    -- `ecallNewAccount` refuses a wrong password for a known name with ACCOUNT_SET_FAIL, but the
    -- account has then become the current one: a withdrawal right after the refusal takes the
    -- money of that account, for every amount up to its balance, and answers the rest of it.
    pub log_in_and_withdraw-wrong_password :
        (b : Bank) (w : World) (name password : Bytes) (i amount : ℕ) (a : Account)
        → Inv sgx b w
        → IsCredential name
        → IsCredential password
        → position name b.accounts ≡ some i
        → get_elem? b.accounts i ≡ some a
        → password ≢ a.password
        → amount ≤ a.deposits
        → let v = record a { deposits = a.deposits - amount } in
          (w' : World) × (log_in_and_withdraw name password amount w
            ≡ (ok (account_set_fail, a.deposits - amount), w'))
          × Inv sgx (record { accounts = set b.accounts i v; current = some i }) w'
    unfolding log_in_and_withdraw
    log_in_and_withdraw-wrong_password b w name password i amount a v n p known found wrong h =
        let l = v.live in
        let b₁ = record b { current = some i } in
        let refused = log_in-refused b name password known found wrong in
        let (w₁, run₁, inv₁) =
          subst (LogsIn w name password) refused
            (ecall_new_account-log_in sgx laws b w name password v n p (rw refused (l.fits))) in
        let taken =
          apply-withdraw b₁ amount (in_use-some b₁ refl found)
            (All-get_elem? IsStorable b.accounts i l.storable found) h in
        let (w₂, run₂, inv₂) =
          subst (Withdraws w₁ amount) taken (ecall_my_withdraw-apply sgx laws b₁ w₁ amount inv₁) in
        (w₂, ground (arith, run₁, run₂), inv₂)
