-- ===== src/Client/Conversation.antt =====
-- The terminal and the server together: an operation, its way to the bank, and what is shown of it.
use seccap_sgx_bank.Base.{
  ℕ, ◌+◌, ◌-◌, ◌^◌, ◌<◌, ◌≤◌, ◌≡◌, sym, ap, ◌∙◌, some, true, [], ◌∷◌, leb, if◌then◌else◌, length,
  set, drop, arith, Bytes, subst,
}
use seccap_sgx_bank.CLib.{print_ld}
use seccap_sgx_bank.Account.{Account}
use seccap_sgx_bank.Bank.{credit, debit}
use seccap_sgx_bank.Bank.{Bank, in_use, apply}
use seccap_sgx_bank.Sgx.{Sgx, SgxLaws}
use seccap_sgx_bank.World.{World, ok}
use seccap_sgx_bank.Enclave.Inv.{Inv, Fits}
use seccap_sgx_bank.Enclave.Serve.{apply-some, ecall_my_deposit-apply, ecall_my_withdraw-apply}
use seccap_sgx_bank.Server.{Machine, Outcome, reply, receive_buf, handle}
use seccap_sgx_bank.Server.Cut.{commas}
use seccap_sgx_bank.Server.Replies.{balance_text, length-print_ld-le}
use seccap_sgx_bank.Server.Respond.{Response, respond, tell, tell_withdrawn}
use seccap_sgx_bank.Server.Perform.{Gives}
use seccap_sgx_bank.Server.Refinement.{handle-respond}
use seccap_sgx_bank.Client.{Client, total, send, pay_in, take_out, prepare, on_reply}
use seccap_sgx_bank.Client.Shows.{on_reply-balance_text}
use seccap_sgx_bank.Client.Amounts.{pay_in-respond, take_out-respond}

credit-sum :
    (a : Account) (amount : ℕ)
    → a.deposits + amount < 10 ^ 7
    → credit a amount ≡ record a { deposits = a.deposits + amount }
unfolding credit
credit-sum a amount h = ground arith

debit-rest :
    (a : Account) (amount : ℕ)
    → a.deposits < 10 ^ 7
    → amount ≤ a.deposits
    → debit a amount ≡ record a { deposits = a.deposits - amount }
unfolding debit
debit-rest a amount h k = ground arith

pub tell-balance :
    (machine : Machine) (b : Bank) (n : ℕ)
    → n < 10 ^ 7
    → tell machine (b, n) ≡ (ok (reply (balance_text machine n)), b)
unfolding tell
tell-balance machine b n h = ground (arith, length-print_ld-le n h)

pub tell_withdrawn-balance :
    (machine : Machine) (b : Bank) (amount n : ℕ)
    → amount ≤ n
    → n < 10 ^ 7
    → tell_withdrawn machine amount (b, n) ≡ (ok (reply (balance_text machine n)), b)
unfolding tell_withdrawn
tell_withdrawn-balance machine b amount n h k = ground (arith, length-print_ld-le n k)

pub if_few : {A : Type 0} (t f : A) (n : ℕ) → n ≤ 1 → (if leb n 1 then t else f) ≡ t
if_few t f n h = ground arith

module _ (server : Machine) (sgx : Sgx) (laws : SgxLaws sgx) where
  -- A message that the bank answers, and leaves its accounts fitting, is answered by the server.
  pub handle-answer :
      (b b' : Bank) (w : World) (buf text : Bytes)
      → Inv sgx b w
      → respond server b buf ≡ (ok (reply text), b')
      → Fits sgx b'.accounts
      → (w' : World) × (handle server sgx buf w ≡ (ok (reply text), w')) × Inv sgx b' w'
  handle-answer b b' w buf text v e fits = subst (Gives sgx (handle server sgx buf w)) e (
      handle-respond sgx server laws b w buf v
        (subst (λ (p : Response Outcome). Fits sgx (let (r, y) = p in y.accounts)) (sym e) fits))

module _ (machine server : Machine) (sgx : Sgx) (laws : SgxLaws sgx) where
  -- A deposit at the terminal, of the customer who is served, whose balance stays below 10 ^ 7: the
  -- server answers it, the terminal shows the sum of the balance and the amount, and nothing else,
  -- and the state then stands for the bank with that balance, with the file up to date. The
  -- terminal's buffer, behind what the message overwrites, holds at most one comma.
  pub pay_in-shown :
      (c : Client) (b : Bank) (w : World) (amount i : ℕ) (a : Account)
      → Inv sgx b w
      → in_use b ≡ some (i, a)
      → a.deposits + amount < 10 ^ 7
      → length c.send_info ≡ 1024
      → length c.receive_data ≡ 1024
      → commas (drop (length (print_ld amount) + 10) c.send_info) ≤ 1
      → let v = record a { deposits = a.deposits + amount } in
        (d : Client) × (e : Client) × (text : Bytes) × (w' : World) × (prepare (pay_in amount) c
          ≡ some (send d true))
        × (handle server sgx (receive_buf d.send_info) w ≡ (ok (reply text), w'))
        × (on_reply machine true text d ≡ some (e, total v.deposits ∷ []))
        × Inv sgx (record b { accounts = set b.accounts i v }) w'
  pay_in-shown c b w amount i a v used h n m few =
      let x = record a { deposits = a.deposits + amount } in
      let b' = record b { accounts = set b.accounts i x } in
      let sum = credit-sum a amount h in
      let (d, sent, same, answer) = pay_in-respond server c b amount n (omega arith) in
      let applied : apply b (λ y. credit y amount) ≡ (b', x.deposits) =
        apply-some b (λ y. credit y amount) used
        ∙ ap (λ (y : Account). (record b { accounts = set b.accounts i y }, y.deposits)) sum in
      let responded =
        answer
        ∙ if_few _ _ (commas (drop (length (print_ld amount) + 10) c.send_info)) few
        ∙ ap (tell server) applied
        ∙ tell-balance server b' x.deposits h in
      let (w₁, run, inv) = ecall_my_deposit-apply sgx laws b w amount v in
      let l = inv.live in
      let (w', handled, after) =
        handle-answer server sgx laws b b' w (receive_buf d.send_info)
          (balance_text server x.deposits) v responded
          (subst (λ (p : Bank × ℕ). Fits sgx (let (y, z) = p in y.accounts)) applied l.fits) in
      let (e, shown, remembered, login, info) =
        on_reply-balance_text machine server d x.deposits h
          (ap (λ (y : Client). length y.receive_data) same ∙ m) in
      (d, e, balance_text server x.deposits, w', sent, handled, shown, after)

  -- A withdrawal at the terminal, of the customer who is served, of at most half of a balance below
  -- 10 ^ 7: the server answers it, the terminal shows the rest, and nothing else, and the state then
  -- stands for the bank with that balance, with the file up to date. The terminal's buffer, behind
  -- what the message overwrites, holds at most one comma.
  pub take_out-shown :
      (c : Client) (b : Bank) (w : World) (amount i : ℕ) (a : Account)
      → Inv sgx b w
      → in_use b ≡ some (i, a)
      → a.deposits < 10 ^ 7
      → amount + amount ≤ a.deposits
      → length c.send_info ≡ 1024
      → length c.receive_data ≡ 1024
      → commas (drop (length (print_ld amount) + 11) c.send_info) ≤ 1
      → let v = record a { deposits = a.deposits - amount } in
        (d : Client) × (e : Client) × (text : Bytes) × (w' : World) × (prepare (take_out amount) c
          ≡ some (send d true))
        × (handle server sgx (receive_buf d.send_info) w ≡ (ok (reply text), w'))
        × (on_reply machine true text d ≡ some (e, total v.deposits ∷ []))
        × Inv sgx (record b { accounts = set b.accounts i v }) w'
  take_out-shown c b w amount i a v used h half n m few =
      let x = record a { deposits = a.deposits - amount } in
      let b' = record b { accounts = set b.accounts i x } in
      let rest = debit-rest a amount h (omega arith) in
      let (d, sent, same, answer) = take_out-respond server c b amount n (omega arith) in
      let applied : apply b (λ y. debit y amount) ≡ (b', x.deposits) =
        apply-some b (λ y. debit y amount) used
        ∙ ap (λ (y : Account). (record b { accounts = set b.accounts i y }, y.deposits)) rest in
      let responded =
        answer
        ∙ if_few _ _ (commas (drop (length (print_ld amount) + 11) c.send_info)) few
        ∙ ap (tell_withdrawn server amount) applied
        ∙ tell_withdrawn-balance server b' amount x.deposits (omega arith) (omega arith) in
      let (w₁, run, inv) = ecall_my_withdraw-apply sgx laws b w amount v in
      let l = inv.live in
      let (w', handled, after) =
        handle-answer server sgx laws b b' w (receive_buf d.send_info)
          (balance_text server x.deposits) v responded
          (subst (λ (p : Bank × ℕ). Fits sgx (let (y, z) = p in y.accounts)) applied l.fits) in
      let (e, shown, remembered, login, info) =
        on_reply-balance_text machine server d x.deposits (omega arith)
          (ap (λ (y : Client). length y.receive_data) same ∙ m) in
      (d, e, balance_text server x.deposits, w', sent, handled, shown, after)
