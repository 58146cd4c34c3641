-- ===== src/Client/Teller.antt =====
-- What the customers at a terminal are promised: a bank and the amount that was shown last, with
-- no messages, buffers, enclave or file.
use seccap_sgx_bank.Base.{
  ℕ, ◌+◌, ◌^◌, ◌<◌, ◌≤◌, none, some, List, [], ◌∷◌, ◌++◌, ltb, if◌then◌else◌, length, drop, All,
  Bytes,
}
use seccap_sgx_bank.CLib.{print_ld}
use seccap_sgx_bank.UserTypes.{ProcessResult, account_set_fail}
use seccap_sgx_bank.Bank.{credit, debit}
use seccap_sgx_bank.Bank.{Bank, log_in, in_use, apply}
use seccap_sgx_bank.Sgx.{Sgx}
use seccap_sgx_bank.DealManager.Parse.{IsField}
use seccap_sgx_bank.Enclave.Inv.{Fits}
use seccap_sgx_bank.Enclave.Login.{IsCredential}
use seccap_sgx_bank.Server.{codes}
use seccap_sgx_bank.Server.Split.{message}
use seccap_sgx_bank.Server.Cut.{commas}
use seccap_sgx_bank.Client.{
  Input, sign_in, pay_in, take_out, finish, other, Notice, total, too_big, wrong_password,
}
use seccap_sgx_bank.Client.Stale.{deposit_text}
use seccap_sgx_bank.Client.Amounts.{withdraw_text}
use seccap_sgx_bank.Client.Login.{IsPrintable}

pub record Counter : Type 0 where
  pub bank : Bank
  pub pre_amount : ℕ

-- The balance of the account in use.
unfoldable pub balance_in_use : Bank → ℕ
unfolding in_use
balance_in_use b = elim (in_use b) [ none ↦ 0 | some (i, a) ↦ a.deposits ]

-- A login shows the balance, or a refusal behind a total of 0.
abbrev pub greeting : ProcessResult → ℕ → List Notice
greeting account_set_fail n = total 0 ∷ wrong_password ∷ []
greeting _ n = total n ∷ []

-- A withdrawal after which the balance is below the amount shows the amount that was shown last.
abbrev pub after_withdrawal : ℕ → ℕ → Bank × ℕ → Counter × List Notice
after_withdrawal pre amount (b, n) =
    if ltb n amount
    then (record { bank = b; pre_amount = pre }, too_big ∷ total pre ∷ [])
    else (record { bank = b; pre_amount = n }, total n ∷ [])

unfoldable pub teller : Counter → Input → Counter × List Notice
unfolding log_in apply credit debit balance_in_use
teller k (sign_in name password) =
    let (b, r) = log_in k.bank name password in
    (record k { bank = b }, greeting r (balance_in_use b))
teller k (pay_in amount) =
    let (b, n) = apply k.bank (λ a. credit a amount) in
    (record { bank = b; pre_amount = n }, total n ∷ [])
teller k (take_out amount) =
    after_withdrawal k.pre_amount amount (apply k.bank (λ a. debit a amount))
teller k finish = (k, [])
teller k other = (k, [])

-- A visit, up to its end.
unfoldable pub teller_all : Counter → List Input → Counter × List Notice
unfolding teller
teller_all k [] = (k, [])
teller_all k (finish ∷ inputs) = (k, [])
teller_all k (input ∷ inputs) =
    let (k', shown) = teller k input in
    let (k'', notices) = teller_all k' inputs in (k'', shown ++ notices)

-- The terminal's buffer after an input has been printed into it.
unfoldable pub written : Input → Bytes → Bytes
written (sign_in name password) buf =
    message (codes "login" ∷ name ∷ password ∷ [])
      (0 ∷ drop (length name + length password + 9) buf)
written (pay_in amount) buf =
    deposit_text amount ++ (0 ∷ drop (length (deposit_text amount) + 1) buf)
written (take_out amount) buf =
    withdraw_text amount ++ (0 ∷ drop (length (withdraw_text amount) + 1) buf)
written finish buf = buf
written other buf = buf

module _ (sgx : Sgx) where
  -- An input that the programs carry out as promised: names and passwords of less than 100 bytes
  -- without commas and NULs, amounts of an `int`, balances below 10 ^ 7, accounts that fit the
  -- file, and a buffer that, behind what is overwritten, holds no comma for a login and at most one
  -- for another message. An input that only sends the old buffer again is left out.
  abbrev pub Manages : Bytes → Bank → Input → Type 0
  Manages buf b (sign_in name password) =
      (IsCredential name × IsCredential password × (length name < 100) × (length password < 100))
      × All IsPrintable b.accounts
      × Fits sgx (let (b', r) = log_in b name password in b'.accounts)
      × IsField (drop (length name + length password + 9) buf)
  Manages buf b (pay_in amount) =
      (amount < 2 ^ 31)
      × ((apply b (λ a. credit a amount)).1 < 10 ^ 7)
      × (commas (drop (length (print_ld amount) + 10) buf) ≤ 1)
  Manages buf b (take_out amount) =
      (amount < 2 ^ 31)
      × ((apply b (λ a. debit a amount)).1 < 10 ^ 7)
      × (commas (drop (length (print_ld amount) + 11) buf) ≤ 1)
  Manages buf b finish = Unit
  Manages buf b other = ⊥

  -- The same of each input of a visit in turn, up to its end.
  abbrev pub ManagesAll : Bytes → Counter → List Input → Type 0
  ManagesAll buf k [] = Unit
  ManagesAll buf k (finish ∷ inputs) = Unit
  ManagesAll buf k (input ∷ inputs) =
      Manages buf k.bank input
      × ManagesAll (written input buf) (let (k', shown) = teller k input in k') inputs
