-- ===== src/Client/Amounts.antt =====
-- What the bank does with a deposit or a withdrawal from the terminal, whatever its buffer held.
use seccap_sgx_bank.Base.{
  ℕ, ◌+◌, ◌^◌, ◌<◌, ◌≤◌, ◌≡◌, ◌≢◌, refl, sym, ap, ◌∙◌, some, true, List, [], ◌∷◌, ◌++◌,
  append_assoc, append-nil, All-imp, lt→ltb, ◌-◌, leb, if◌then◌else◌, length, length-append, drop,
  arith, Bytes,
}
use seccap_sgx_bank.CLib.{print_ld, digits, atoi, c_str}
use seccap_sgx_bank.CLib.Text.{IsText, c_str-IsText}
use seccap_sgx_bank.CLib.Decimal.{IsDigit, digits-IsDigit, length-digits-le, atoi-digits}
use seccap_sgx_bank.Bank.{credit, debit}
use seccap_sgx_bank.Bank.{Bank, apply}
use seccap_sgx_bank.World.{stop, out_of_bounds}
use seccap_sgx_bank.DealManager.Parse.{IsField}
use seccap_sgx_bank.Server.{Machine, codes, receive_buf}
use seccap_sgx_bank.Server.Cut.{cut, commas, length-cut, cut-field}
use seccap_sgx_bank.Server.Respond.{respond, perform, on_deposit, on_withdraw, tell, tell_withdrawn}
use seccap_sgx_bank.Client.{Client, send, pay_in, take_out, prepare}
use seccap_sgx_bank.Client.Buffer.{
  length-drop, receive_buf-full, print_ld-IsField, sprintf_over-drop,
}
use seccap_sgx_bank.Client.Stale.{deposit_text, length-deposit_text, prepare-pay_in}

abbrev pub withdraw_text : ℕ → Bytes
withdraw_text amount = codes "withdraw," ++ print_ld amount ++ codes ","

pub length-withdraw_text :
    (amount : ℕ) → length (withdraw_text amount) ≡ length (print_ld amount) + 10
length-withdraw_text amount = omega (arith, length-append (print_ld amount) (b',' ∷ []))

pub prepare-take_out :
    (d : Client) (amount : ℕ)
    → length (withdraw_text amount) < length d.send_info
    → prepare (take_out amount) d
      ≡ some (
          send
            (record d {
              send_info =
                  withdraw_text amount
                  ++ (0 ∷ drop (length (withdraw_text amount) + 1) d.send_info);
            })
            true)
unfolding prepare
prepare-take_out d amount h = ground (arith, sprintf_over-drop (withdraw_text amount) d h)

-- An instruction and an amount, and what stands behind them in the buffer.
abbrev instruction : Bytes → ℕ → Bytes → Bytes
instruction word amount rest = word ++ (b',' ∷ (print_ld amount ++ (b',' ∷ (0 ∷ rest))))

cut-instruction :
    (word rest : Bytes) (amount : ℕ)
    → IsField word
    → cut (instruction word amount rest)
      ≡ (word ∷ print_ld amount ∷ (cut (0 ∷ rest)).0, (cut (0 ∷ rest)).1)
cut-instruction word rest amount h =
    cut-field word (print_ld amount ++ (b',' ∷ (0 ∷ rest))) h
    ∙ ap (λ p. (word ∷ p.0, p.1)) (cut-field (print_ld amount) (0 ∷ rest) (print_ld-IsField amount))

commas-nul : (rest : Bytes) → length (cut (0 ∷ rest)).0 ≡ commas rest
unfolding commas
commas-nul rest = length-cut (0 ∷ rest) ∙ omega arith

print_ld-IsText : (n : ℕ) → IsText (print_ld n)
unfolding print_ld
print_ld-IsText n =
    let plain = λ (m : ℕ).
      All-imp IsDigit (λ c. c ≢ 0) (digits 20 m) (λ c d. omega arith) (digits-IsDigit 20 m) in
    ground (arith, plain n, plain (2 ^ 64 - n))

pub length-print_ld-int : (n : ℕ) → n < 2 ^ 31 → length (print_ld n) ≤ 10
unfolding print_ld
length-print_ld-int n h =
    rw (lt→ltb n (2 ^ 63) (omega arith)) (length-digits-le 20 10 n (omega arith) (omega arith))

c_str-deposit : c_str (codes "deposit") ≡ codes "deposit"
unfolding c_str
c_str-deposit = refl

c_str-withdraw : c_str (codes "withdraw") ≡ codes "withdraw"
unfolding c_str
c_str-withdraw = refl

module _ (machine : Machine) where
  -- The server takes the instruction if at most one comma is left behind it.
  respond-instruction :
      (b : Bank) (word rest : Bytes) (amount : ℕ)
      → IsField word
      → respond machine b (instruction word amount rest) ≡ (
          if leb (commas rest) 1
          then perform machine b
              (instruction word amount rest)
              (word ∷ print_ld amount ∷ (cut (0 ∷ rest)).0)
          else (stop out_of_bounds, b))
  unfolding respond
  respond-instruction b word rest amount h =
      rw (cut-instruction word rest amount h) (ground (arith, commas-nul rest))

  -- The same of a text that is printed over the front of the terminal's buffer.
  respond-printed :
      (c : Client) (b : Bank) (word text : Bytes) (amount k : ℕ)
      → length c.send_info ≡ 1024
      → IsField word
      → length text + 1 ≡ k
      → k ≤ 1024
      → ((rest : Bytes) → text ++ (0 ∷ rest) ≡ instruction word amount rest)
      → respond machine b (receive_buf (text ++ (0 ∷ drop (length text + 1) c.send_info))) ≡ (
          let rest = drop k c.send_info in
          if leb (commas rest) 1
          then perform machine b
              (instruction word amount rest)
              (word ∷ print_ld amount ∷ (cut (0 ∷ rest)).0)
          else (stop out_of_bounds, b))
  respond-printed c b word text amount k n h e fits is =
      let rest = drop (length text + 1) c.send_info in
      let whole =
        receive_buf-full (text ++ (0 ∷ rest)) (
          omega
            (arith, length-append text (0 ∷ rest), length-drop (length text + 1) c.send_info)) in
      rw (whole, is rest, e) (respond-instruction b word (drop k c.send_info) amount h)

  amount-value :
      (amount : ℕ) → amount < 2 ^ 31 → atoi (machine.atoi_open) (c_str (print_ld amount)) ≡ amount
  amount-value amount h = rw (c_str-IsText (print_ld amount) (print_ld-IsText amount)) (
      ap (atoi (machine.atoi_open)) (sym (append-nil (print_ld amount)))
      ∙ atoi-digits (machine.atoi_open) amount [] h tt)

  perform-deposit :
      (b : Bank) (buf : Bytes) (fields : List Bytes) (amount : ℕ)
      → amount < 2 ^ 31
      → perform machine b buf (codes "deposit" ∷ print_ld amount ∷ fields)
        ≡ tell machine (apply b (λ a. credit a amount))
  unfolding perform on_deposit
  perform-deposit b buf fields amount h = rw (c_str-deposit, amount-value amount h)

  perform-withdraw :
      (b : Bank) (buf : Bytes) (fields : List Bytes) (amount : ℕ)
      → amount < 2 ^ 31
      → perform machine b buf (codes "withdraw" ∷ print_ld amount ∷ fields)
        ≡ tell_withdrawn machine amount (apply b (λ a. debit a amount))
  unfolding perform on_withdraw
  perform-withdraw b buf fields amount h = rw (c_str-withdraw, amount-value amount h)

  deposit_text-instruction :
      (amount : ℕ) (rest : Bytes)
      → deposit_text amount ++ (0 ∷ rest) ≡ instruction (codes "deposit") amount rest
  deposit_text-instruction amount rest =
      ap (λ s. codes "deposit," ++ s) (append_assoc (print_ld amount) (b',' ∷ []) (0 ∷ rest))

  withdraw_text-instruction :
      (amount : ℕ) (rest : Bytes)
      → withdraw_text amount ++ (0 ∷ rest) ≡ instruction (codes "withdraw") amount rest
  withdraw_text-instruction amount rest =
      ap (λ s. codes "withdraw," ++ s) (append_assoc (print_ld amount) (b',' ∷ []) (0 ∷ rest))

  -- What the terminal sends for a deposit below 2 ^ 31, from any buffer: the bank makes exactly that
  -- deposit if the part of the buffer that the new text leaves as it was holds at most one comma,
  -- and otherwise the server writes outside of its array.
  pub pay_in-respond :
      (c : Client) (b : Bank) (amount : ℕ)
      → length c.send_info ≡ 1024
      → amount < 2 ^ 31
      → (d : Client) × (prepare (pay_in amount) c ≡ some (send d true))
        × (d ≡ record c { send_info = d.send_info })
        × (respond machine b (receive_buf d.send_info) ≡ (
            if leb (commas (drop (length (print_ld amount) + 10) c.send_info)) 1
            then tell machine (apply b (λ a. credit a amount))
            else (stop out_of_bounds, b)))
  pay_in-respond c b amount n h =
      let k = length (print_ld amount) + 10 in
      let short = length-print_ld-int amount h in
      let size : length (deposit_text amount) + 1 ≡ k = omega (arith, length-deposit_text amount) in
      let rest = drop k c.send_info in
      let word : IsField (codes "deposit") = ground arith in
      (
        record c {
          send_info =
              deposit_text amount ++ (0 ∷ drop (length (deposit_text amount) + 1) c.send_info);
        },
        prepare-pay_in c amount (omega arith),
        refl,
        respond-printed c b (codes "deposit") (deposit_text amount) amount k n word size
              (omega arith) (deposit_text-instruction amount)
            ∙ ap (λ r. if leb (commas rest) 1 then r else (stop out_of_bounds, b))
                (perform-deposit b (instruction (codes "deposit") amount rest) (cut (0 ∷ rest)).0
                  amount h),
      )

  -- What the terminal sends for a withdrawal below 2 ^ 31, from any buffer: likewise.
  pub take_out-respond :
      (c : Client) (b : Bank) (amount : ℕ)
      → length c.send_info ≡ 1024
      → amount < 2 ^ 31
      → (d : Client) × (prepare (take_out amount) c ≡ some (send d true))
        × (d ≡ record c { send_info = d.send_info })
        × (respond machine b (receive_buf d.send_info) ≡ (
            if leb (commas (drop (length (print_ld amount) + 11) c.send_info)) 1
            then tell_withdrawn machine amount (apply b (λ a. debit a amount))
            else (stop out_of_bounds, b)))
  take_out-respond c b amount n h =
      let k = length (print_ld amount) + 11 in
      let short = length-print_ld-int amount h in
      let size : length (withdraw_text amount) + 1 ≡ k =
        omega (arith, length-withdraw_text amount) in
      let rest = drop k c.send_info in
      let word : IsField (codes "withdraw") = ground arith in
      (
        record c {
          send_info =
              withdraw_text amount ++ (0 ∷ drop (length (withdraw_text amount) + 1) c.send_info);
        },
        prepare-take_out c amount (omega arith),
        refl,
        respond-printed c b (codes "withdraw") (withdraw_text amount) amount k n word size
              (omega arith) (withdraw_text-instruction amount)
            ∙ ap (λ r. if leb (commas rest) 1 then r else (stop out_of_bounds, b))
                (perform-withdraw b (instruction (codes "withdraw") amount rest) (cut (0 ∷ rest)).0
                  amount h),
      )
