-- ===== src/Server/Messages.antt =====
-- Whole messages at the server: a negative deposit, and a message with too many commas.
use seccap_sgx_bank.Base.{
  ℕ, ◌-◌, ◌^◌, ◌<◌, ◌≤◌, ◌≡◌, ◌≢◌, refl, sym, ap, ◌∙◌, some, List, [], ◌∷◌, ◌++◌, append-nil,
  length, set, All, All-imp, arith, Bytes,
}
use seccap_sgx_bank.CLib.{print_ld, digits, atoi, u64_mod, strncmp_eq, c_str}
use seccap_sgx_bank.CLib.Text.{IsText, c_str-IsText}
use seccap_sgx_bank.CLib.Decimal.{IsDigit, digits-IsDigit, atoi-minus, length-digits-le}
use seccap_sgx_bank.Account.{Account}
use seccap_sgx_bank.Bank.{credit}
use seccap_sgx_bank.Bank.{Bank, in_use}
use seccap_sgx_bank.Sgx.{Sgx, SgxLaws}
use seccap_sgx_bank.World.{World, ok, stop, out_of_bounds, finished}
use seccap_sgx_bank.DealManager.Parse.{IsField}
use seccap_sgx_bank.Enclave.Inv.{Inv, Inv-console}
use seccap_sgx_bank.Server.Split.{message, split-message}
use seccap_sgx_bank.Server.Replies.{balance_text, deposit_process-reply}
use seccap_sgx_bank.Server.{Machine, reply, codes, execute, handle}

-- What the client sends for a deposit of minus `n`.
abbrev pub minus : ℕ → Bytes
minus n = b'-' ∷ digits 20 n

minus-IsText : (n : ℕ) → IsText (minus n)
minus-IsText n = (
  omega arith,
  All-imp IsDigit (λ c. c ≢ 0) (digits 20 n) (λ c d. omega arith) (digits-IsDigit 20 n),
)

minus-IsField : (n : ℕ) → IsField (minus n)
minus-IsField n = (
  omega arith,
  All-imp IsDigit (λ c. c ≢ b',') (digits 20 n) (λ c d. omega arith) (digits-IsDigit 20 n),
)

credit-minus :
    (a : Account) (n : ℕ)
    → a.deposits < n
    → n ≤ 2 ^ 31
    → credit a (2 ^ 64 - n) ≡ record a { deposits = 2 ^ 64 - (n - a.deposits) }
unfolding credit
credit-minus a n h k = ground arith

minus-amount :
    (machine : Machine) (n : ℕ)
    → 0 < n
    → n < 10 ^ 6
    → atoi (machine.atoi_open) (minus n) ≡ 2 ^ 64 - n
minus-amount machine n h k =
    ap (λ (s : Bytes). atoi (machine.atoi_open) (b'-' ∷ s)) (sym (append-nil (digits 20 n)))
    ∙ atoi-minus (machine.atoi_open) n [] h (omega arith) tt

length-print_ld-minus : (k : ℕ) → 0 < k → k < 10 ^ 6 → length (print_ld (2 ^ 64 - k)) ≤ 7
unfolding print_ld
length-print_ld-minus k p h =
    let back : u64_mod - (2 ^ 64 - k) ≡ k = omega arith in
    rw back (ground (arith, length-digits-le 20 6 k))

c_str-deposit : c_str (codes "deposit") ≡ codes "deposit"
unfolding c_str
c_str-deposit = refl

module _ (machine : Machine) (sgx : Sgx) where
  -- A message with a fourth comma makes the server write outside of its array of three fields.
  pub handle-four :
      (fs : List Bytes) (tail : Bytes) (w : World)
      → All IsField fs
      → IsField tail
      → 3 < length fs
      → handle machine sgx (message fs tail) w ≡ (stop out_of_bounds, w)
  unfolding handle
  handle-four fs tail w h t n = ground (arith, split-message fs tail h t)

  module _ (laws : SgxLaws sgx) where
    -- The message "deposit,-<n>," with n larger than the balance, but below 10 ^ 6, is carried out
    -- as a deposit of 2 ^ 64 - n: the balance becomes 2 ^ 64 less what the customer would owe, is
    -- stored, and is answered as the negative number that `%ld` prints of it.
    pub handle-minus :
        (b : Bank) (w : World) (tail : Bytes) (n i : ℕ) (a : Account)
        → Inv sgx b w
        → in_use b ≡ some (i, a)
        → a.deposits < n
        → n < 10 ^ 6
        → IsField tail
        → let v = record a { deposits = 2 ^ 64 - (n - a.deposits) } in
          (w' : World) × (handle machine sgx (message (codes "deposit" ∷ minus n ∷ []) tail) w
            ≡ (ok (reply (balance_text machine v.deposits)), w'))
          × Inv sgx (record b { accounts = set b.accounts i v }) w'
    unfolding handle execute strncmp_eq
    handle-minus b w tail n i a v used h k t =
        let fields = codes "deposit" ∷ minus n ∷ [] in
        let text = c_str-IsText (minus n) (minus-IsText n) in
        let amount = minus-amount machine n (omega arith) k in
        let wrapped = credit-minus a n h (omega arith) in
        let (w', run, inv) =
          deposit_process-reply machine sgx laws b w fields (minus n) i a v used
            (ground (arith, text, c_str-deposit)) in
        let taken = rw (amount, wrapped) at inv in
        (
          record w' { console = w'.console ++ finished ∷ [] },
          ground (
            arith,
            split-message fields tail (omega arith, (minus-IsField n, tt)) t,
            c_str-deposit,
            run,
            amount,
            wrapped,
            length-print_ld-minus (n - a.deposits) (omega arith) (omega arith),
          ),
          Inv-console sgx _ _ w' taken,
        )
