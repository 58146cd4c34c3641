-- ===== src/Server/Replies.antt =====
-- The server's replies to deposits and withdrawals, against the bank.
use seccap_sgx_bank.Base.{
  ℕ, ◌+◌, ◌-◌, ◌^◌, ◌<◌, ◌≤◌, ◌≡◌, subst, some, List, [], ◌∷◌, ◌++◌, ltb, lt→ltb, if◌then◌else◌,
  length, set, drop, arith, Bytes,
}
use seccap_sgx_bank.CLib.{print_ld, atoi}
use seccap_sgx_bank.CLib.Decimal.{length-digits-le, lt-length-digits}
use seccap_sgx_bank.Account.{Account}
use seccap_sgx_bank.Bank.{debit, credit}
use seccap_sgx_bank.Account.Balance.{InRange}
use seccap_sgx_bank.Bank.{Bank, in_use}
use seccap_sgx_bank.Sgx.{Sgx, SgxLaws}
use seccap_sgx_bank.World.{World, Result, ok, stop, out_of_bounds, deposit_start, withdraw_start}
use seccap_sgx_bank.Enclave.{ecall_my_deposit, ecall_my_withdraw}
use seccap_sgx_bank.Enclave.Inv.{Inv, Inv-console}
use seccap_sgx_bank.Enclave.Serve.{apply-some, ecall_my_deposit-apply, ecall_my_withdraw-apply}
use seccap_sgx_bank.Server.{
  Machine, Outcome, reply, codes, entry, sprintf_new, read_amount, deposit_process,
  withdraw_process,
}

pub length-print_ld-le : (n : ℕ) → n < 10 ^ 7 → length (print_ld n) ≤ 7
unfolding print_ld
length-print_ld-le n h =
    rw (lt→ltb n (2 ^ 63) (omega arith)) (length-digits-le 20 7 n (omega arith) h)

lt-length-print_ld : (n : ℕ) → 10 ^ 7 ≤ n → n < 2 ^ 63 → 7 < length (print_ld n)
unfolding print_ld
lt-length-print_ld n h k = rw (lt→ltb n (2 ^ 63) k) (lt-length-digits 20 7 n (omega arith) h)

debit-left :
    (a : Account) (amount : ℕ)
    → InRange a
    → amount ≤ a.deposits
    → debit a amount ≡ record a { deposits = a.deposits - amount }
unfolding debit
debit-left a amount r h = ground arith

module _ (machine : Machine) where
  open machine use {atoi_open, garbage}

  -- The array of 8 bytes that a balance is sent in.
  abbrev pub balance_text : ℕ → Bytes
  balance_text n = print_ld n ++ (0 ∷ drop (length (print_ld n) + 1) (garbage 8))

  sprintf_new-fits :
      (n : ℕ) (w : World)
      → length (print_ld n) ≤ 7
      → sprintf_new machine 8 (print_ld n) w ≡ (ok (balance_text n), w)
  unfolding sprintf_new
  sprintf_new-fits n w h = ground arith

  sprintf_new-overflows :
      (n : ℕ) (w : World)
      → 7 < length (print_ld n)
      → sprintf_new machine 8 (print_ld n) w ≡ (stop out_of_bounds, w)
  unfolding sprintf_new
  sprintf_new-overflows n w h = ground arith

  -- What the server sends of a balance: its digits in the array, or it writes outside of it.
  abbrev pub Sends : ℕ → Result Outcome → Type 0
  Sends n r = r ≡ (if ltb n (10 ^ 7) then ok (reply (balance_text n)) else stop out_of_bounds)

  read_amount-text :
      (fields : List Bytes) (text : Bytes) (w : World)
      → entry fields 1 ≡ some text
      → read_amount machine fields w ≡ (ok (atoi atoi_open text), w)
  unfolding read_amount
  read_amount-text fields text w e = ground arith

  module _ (sgx : Sgx) (laws : SgxLaws sgx) where
    -- The ecalls, by the bank that they lead to and their answer.
    abbrev Deposits : World → ℕ → Bank × ℕ → Type 0
    Deposits w amount (b, n) =
        (w' : World) × (ecall_my_deposit sgx amount w ≡ (ok n, w')) × Inv sgx b w'

    abbrev Withdraws : World → ℕ → Bank × ℕ → Type 0
    Withdraws w amount (b, n) =
        (w' : World) × (ecall_my_withdraw sgx amount w ≡ (ok n, w')) × Inv sgx b w'

    -- A message "deposit,<amount>" is a deposit of the account in use, and is stored; the answer
    -- is the balance as `%ld` prints it, in an array of 8 bytes, which a text of more than 7
    -- characters overflows, after the deposit has been stored.
    pub deposit_process-reply :
        (b : Bank) (w : World) (fields : List Bytes) (text : Bytes) (i : ℕ) (a : Account)
        → Inv sgx b w
        → in_use b ≡ some (i, a)
        → entry fields 1 ≡ some text
        → let v = credit a (atoi atoi_open text) in
          (w' : World) × (deposit_process machine sgx fields w ≡ (
            (if ltb 7 (length (print_ld v.deposits))
                then stop out_of_bounds
                else ok (reply (balance_text v.deposits))),
            w',
          ))
          × Inv sgx (record b { accounts = set b.accounts i v }) w'
    unfolding deposit_process
    deposit_process-reply b w fields text i a v used e =
        let amount = atoi atoi_open text in
        let n = (let x = credit a amount in x.deposits) in
        let w₁ = record w { console = w.console ++ (deposit_start ∷ []) } in
        let same = apply-some b (λ x. credit x amount) used in
        let (w₂, run, inv) =
          subst (Deposits w₁ amount) same
            (ecall_my_deposit-apply sgx laws b w₁ amount (Inv-console sgx b _ w v)) in
        (
          w₂,
          ground (
            arith,
            read_amount-text fields text w₁ e,
            run,
            sprintf_new-fits n w₂,
            sprintf_new-overflows n w₂,
          ),
          inv,
        )

    -- A message "deposit,<amount>" of the customer who is served leaves and stores the sum of the
    -- balance and the amount where that fits 64 bits, and the balance as it was where it does not.
    -- With a balance below 2 ^ 63 afterwards: the answer is that balance where it is below 10 ^ 7,
    -- and from 10 ^ 7 on the server writes outside of its array of 8 bytes, after the storing.
    pub deposit_process-Sends :
        (b : Bank) (w : World) (fields : List Bytes) (text : Bytes) (i : ℕ) (a : Account)
        → Inv sgx b w
        → in_use b ≡ some (i, a)
        → entry fields 1 ≡ some text
        → (let v = credit a (atoi atoi_open text) in v.deposits < 2 ^ 63)
        → let v = credit a (atoi atoi_open text) in
          let (sent, w') = deposit_process machine sgx fields w in
          Sends v.deposits sent × Inv sgx (record b { accounts = set b.accounts i v }) w'
    deposit_process-Sends b w fields text i a v used e h =
        let n = (let x = credit a (atoi atoi_open text) in x.deposits) in
        let (w', run, inv) = deposit_process-reply b w fields text i a v used e in
        rw run (ground (arith, length-print_ld-le n, lt-length-print_ld n), inv)

    -- A message "withdraw,<amount>" is a withdrawal from the account in use, and is stored; the
    -- answer is "too big." exactly where the amount is larger than the balance AFTERWARDS, and
    -- otherwise that balance, which must be below 10 ^ 7 to fit its array.
    pub withdraw_process-reply :
        (b : Bank) (w : World) (fields : List Bytes) (text : Bytes) (i : ℕ) (a : Account)
        → Inv sgx b w
        → in_use b ≡ some (i, a)
        → entry fields 1 ≡ some text
        → let amount = atoi atoi_open text in
          let v = debit a amount in
          v.deposits < 10 ^ 7
          → (w' : World) × (withdraw_process machine sgx fields w ≡ (
            ok (
                reply
                  (if ltb v.deposits amount then codes "too big." else balance_text v.deposits)),
            w',
          ))
            × Inv sgx (record b { accounts = set b.accounts i v }) w'
    unfolding withdraw_process
    withdraw_process-reply b w fields text i a v used e h =
        let amount = atoi atoi_open text in
        let n = (let x = debit a amount in x.deposits) in
        let w₁ = record w { console = w.console ++ (withdraw_start ∷ []) } in
        let same = apply-some b (λ x. debit x amount) used in
        let (w₂, run, inv) =
          subst (Withdraws w₁ amount) same
            (ecall_my_withdraw-apply sgx laws b w₁ amount (Inv-console sgx b _ w v)) in
        (
          w₂,
          ground (
            arith,
            read_amount-text fields text w₁ e,
            run,
            sprintf_new-fits n w₂ (length-print_ld-le n h),
          ),
          inv,
        )

    -- A withdrawal of more than half of the balance, and no more than the balance, is carried out
    -- and stored, and yet answered by "too big.". The rest must be below 10 ^ 7.
    pub withdraw_process-too_big :
        (b : Bank) (w : World) (fields : List Bytes) (text : Bytes) (i : ℕ) (a : Account)
        → Inv sgx b w
        → in_use b ≡ some (i, a)
        → entry fields 1 ≡ some text
        → let amount = atoi atoi_open text in
          amount ≤ a.deposits
          → a.deposits < amount + amount
          → a.deposits < amount + 10 ^ 7
          → InRange a
          → (w' : World) × (withdraw_process machine sgx fields w
              ≡ (ok (reply (codes "too big.")), w'))
            × Inv sgx
                (record b {
                  accounts = set b.accounts i (record a { deposits = a.deposits - amount });
                })
                w'
    withdraw_process-too_big b w fields text i a v used e covered half fits r =
        let amount = atoi atoi_open text in
        let left = debit-left a amount r covered in
        let (w', run, inv) =
          withdraw_process-reply b w fields text i a v used e (rw left (omega arith)) in
        (w', ground (arith, run, left), rw left at inv)
