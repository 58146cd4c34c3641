-- ===== src/Account/Balance.antt =====
-- The balance under `Withdraw` and `Deposit`: exact, never wrapped, and untouched on refusal.
use seccap_sgx_bank.Base.{ℕ, ◌+◌, ◌≤◌, ◌<◌, ◌≡◌, ◌⊎◌, arith}
use seccap_sgx_bank.CLib.{u64_mod}
use seccap_sgx_bank.UserTypes.{process_success, deposit_overflow}
use seccap_sgx_bank.Account.{Account, withdraw, deposit}

-- The balance is a `uint64_t`.
abbrev pub InRange : Account → Type 0
InRange a = a.deposits < u64_mod

-- The new balance is the old one less `amount`, and nothing else of the account has changed.
abbrev pub Withdrawn : Account → ℕ → Account → Type 0
Withdrawn a amount b = (b.deposits + amount ≡ a.deposits) × (b ≡ record a { deposits = b.deposits })

abbrev pub Deposited : Account → ℕ → Account → Type 0
Deposited a amount b = (b.deposits ≡ a.deposits + amount) × (b ≡ record a { deposits = b.deposits })

-- For a balance that is a 64-bit number: `Withdraw` either succeeds, where the balance covers the
-- amount, and takes away exactly the amount; or it answers DEPOSIT_OVERFLOW, where the amount is
-- larger than the balance, and changes nothing.
pub withdraw_exact :
    (a : Account) (amount : ℕ)
    → InRange a
    → let (b, r) = withdraw a amount in
      ((amount ≤ a.deposits) × (r ≡ process_success) × Withdrawn a amount b)
      ⊎ ((a.deposits < amount) × (r ≡ deposit_overflow) × (b ≡ a))
unfolding withdraw
withdraw_exact a amount h = ground arith

-- For a balance and an amount that are 64-bit numbers: `Deposit` either succeeds, where the sum
-- fits 64 bits, and adds exactly the amount; or it answers DEPOSIT_OVERFLOW, where the sum does
-- not fit, and changes nothing.
pub deposit_exact :
    (a : Account) (amount : ℕ)
    → InRange a
    → amount < u64_mod
    → let (b, r) = deposit a amount in
      ((a.deposits + amount < u64_mod) × (r ≡ process_success) × Deposited a amount b)
      ⊎ ((u64_mod ≤ a.deposits + amount) × (r ≡ deposit_overflow) × (b ≡ a))
unfolding deposit
deposit_exact a amount h k = ground arith

-- A deposit that was accepted can be withdrawn again, which restores the account.
pub withdraw-deposit :
    (a : Account) (amount : ℕ)
    → InRange a
    → (deposit a amount).1 ≡ process_success
    → withdraw (deposit a amount).0 amount ≡ (a, process_success)
unfolding withdraw deposit
withdraw-deposit a amount h e = ground arith

pub withdraw-InRange : (a : Account) (amount : ℕ) → InRange a → InRange (withdraw a amount).0
unfolding withdraw
withdraw-InRange a amount h = ground arith

pub deposit-InRange : (a : Account) (amount : ℕ) → InRange a → InRange (deposit a amount).0
unfolding deposit
deposit-InRange a amount h = ground arith
