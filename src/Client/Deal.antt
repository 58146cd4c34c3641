-- ===== src/Client/Deal.antt =====
-- One input at the terminal, through both programs, against the promise of `Client.Teller`.
use seccap_sgx_bank.Base.{
  ℕ, ◌+◌, ◌<◌, ◌≤◌, ◌≡◌, inl, inr, refl, ap, ◌∙◌, Bool, Bool-cases, true, some, List, [], ◌∷◌, ◌++◌,
  ltb, leb, if◌then◌else◌, length, length-append, drop, arith, Bytes,
}
use seccap_sgx_bank.Bank.{credit, debit}
use seccap_sgx_bank.Bank.{Bank, apply}
use seccap_sgx_bank.Sgx.{Sgx, SgxLaws}
use seccap_sgx_bank.World.{World, ok, stop, out_of_bounds}
use seccap_sgx_bank.Enclave.Inv.{Inv, Fits}
use seccap_sgx_bank.Enclave.Serve.{ecall_my_deposit-apply, ecall_my_withdraw-apply}
use seccap_sgx_bank.Server.{Machine, Outcome, reply, codes, receive_buf, handle}
use seccap_sgx_bank.Server.Replies.{balance_text}
use seccap_sgx_bank.Server.Respond.{Response, respond, tell_withdrawn}
use seccap_sgx_bank.Client.{
  Client, Input, pay_in, take_out, Notice, total, too_big, send, prepare, on_reply,
}
use seccap_sgx_bank.Client.Buffer.{length-drop}
use seccap_sgx_bank.Client.Stale.{deposit_text, length-deposit_text, prepare-pay_in}
use seccap_sgx_bank.Client.Amounts.{
  withdraw_text, length-withdraw_text, length-print_ld-int, prepare-take_out, pay_in-respond,
  take_out-respond,
}
use seccap_sgx_bank.Client.Shows.{on_reply-balance_text}
use seccap_sgx_bank.Client.Conversation.{
  handle-answer, tell-balance, tell_withdrawn-balance, if_few,
}
use seccap_sgx_bank.Client.Teller.{Counter, teller, written, Manages}
use seccap_sgx_bank.Client.Kept.{on_reply-Kept, on_reply-too_big}

-- Buffers of the terminal's size.
pub record IsSized (c : Client) : Type 0 where
  pub info_size : length c.send_info ≡ 1024
  pub data_size : length c.receive_data ≡ 1024

-- The text of an amount over the front of the buffer.
pub length-printed :
    (text buf : Bytes)
    → length text < length buf
    → length (text ++ (0 ∷ drop (length text + 1) buf)) ≡ length buf
length-printed text buf h =
    omega (
      arith,
      length-append text (0 ∷ drop (length text + 1) buf),
      length-drop (length text + 1) buf,
    )

-- A terminal has at most one next step.
pub send-same :
    (c d e : Client) (input : Input) (s t : Bool)
    → prepare input c ≡ some (send d s)
    → prepare input c ≡ some (send e t)
    → d ≡ e
send-same c d e input s t h k = cc

module _ (machine server : Machine) (sgx : Sgx) (laws : SgxLaws sgx) where
  -- An input is printed, sent, answered and shown, up to the promised counter and notices.
  pub record Deals (c : Client) (w : World) (input : Input) (p : Counter × List Notice)
      : Type 0 where
    pub sent : Client
    pub expects : Bool
    pub text : Bytes
    pub after : World
    pub next : Client
    pub prepared : prepare input c ≡ some (send sent expects)
    pub handled : handle server sgx (receive_buf sent.send_info) w ≡ (ok (reply text), after)
    pub shown : on_reply machine expects text sent ≡ some (next, p.1)
    pub info_is : next.send_info ≡ written input c.send_info
    pub pre_is : next.pre_amount ≡ (let k = p.0 in k.pre_amount)
    pub inv : Inv sgx (let k = p.0 in k.bank) after
    pub sized : IsSized next

  -- What a deposit and a withdrawal have in common: the answer is known.
  deal :
      (c d : Client) (b b' : Bank) (w : World) (input : Input) (flag : Bool) (text : Bytes)
      (next : Client) (n : ℕ) (notices : List Notice)
      → Inv sgx b w
      → IsSized c
      → prepare input c ≡ some (send d flag)
      → d ≡ record c { send_info = written input c.send_info; login = d.login }
      → length (written input c.send_info) ≡ 1024
      → respond server b (receive_buf d.send_info) ≡ (ok (reply text), b')
      → Fits sgx b'.accounts
      → on_reply machine flag text d ≡ some (next, notices)
      → next.pre_amount ≡ n
      → Deals c w input (record { bank = b'; pre_amount = n }, notices)
  deal c d b b' w input flag text next n notices v size prepared is long responded fits shown pre =
      let (after, handled, inv) =
        handle-answer server sgx laws b b' w (receive_buf d.send_info) text v responded fits in
      let (kept, rest) = on_reply-Kept machine flag text d next notices shown in
      let info = ap (λ (x : Client). x.send_info) is in
      let received = ap (λ (x : Client). length x.receive_data) is in
      record {
        sent = d;
        expects = flag;
        text = text;
        after = after;
        next = next;
        prepared = prepared;
        info_is = kept.info ∙ info;
        handled = handled;
        shown = shown;
        pre_is = pre;
        inv = inv;
        sized = record {
          info_size = ap length (kept.info ∙ info) ∙ long;
          data_size = kept.size ∙ received ∙ size.data_size;
        };
      }

  -- The response to what is sent, where few commas are left.
  respond-few :
      (c d sent : Client) (b : Bank) (input : Input) (r : Response Outcome) (n : ℕ)
      → prepare input c ≡ some (send d true)
      → prepare input c ≡ some (send sent true)
      → respond server b (receive_buf d.send_info)
        ≡ (if leb n 1 then r else (stop out_of_bounds, b))
      → n ≤ 1
      → respond server b (receive_buf sent.send_info) ≡ r
  respond-few c d sent b input r n h k answer few =
      ap (λ (x : Client). respond server b (receive_buf x.send_info))
        (send-same c sent d input true true k h)
      ∙ answer
      ∙ if_few r (stop out_of_bounds, b) n few

  pub deal-pay_in :
      (c : Client) (b : Bank) (w : World) (amount : ℕ)
      → Inv sgx b w
      → IsSized c
      → Manages sgx c.send_info b (pay_in amount)
      → Deals c w
          (pay_in amount)
          (teller (record { bank = b; pre_amount = c.pre_amount }) (pay_in amount))
  unfolding teller written
  deal-pay_in c b w amount v size (int, small, few) =
      let (b', n) = apply b (λ a. credit a amount) in
      let text = deposit_text amount in
      let sent = record c { send_info = text ++ (0 ∷ drop (length text + 1) c.send_info) } in
      let (d, prepared, same, answer) = pay_in-respond server c b amount size.info_size int in
      let long : length text < length c.send_info =
        omega (arith, length-deposit_text amount, length-print_ld-int amount int, size.info_size) in
      let here = prepare-pay_in c amount long in
      let answered =
        respond-few c d sent b (pay_in amount) _ _ prepared here answer few
        ∙ tell-balance server b' n small in
      let (w', run, inv) = ecall_my_deposit-apply sgx laws b w amount v in
      let (e, shown, pre, login, info) =
        on_reply-balance_text machine server sent n small size.data_size in
      deal c sent b b' w (pay_in amount) true (balance_text server n) e n (total n ∷ []) v size here
        refl (length-printed text c.send_info long ∙ size.info_size) answered
        (let l = inv.live in l.fits) shown pre

  -- A withdrawal after which the balance is below the amount.
  tell_withdrawn-too_big :
      (b : Bank) (amount n : ℕ)
      → n < amount
      → tell_withdrawn server amount (b, n) ≡ (ok (reply (codes "too big.")), b)
  unfolding tell_withdrawn
  tell_withdrawn-too_big b amount n h = ground arith

  pub deal-take_out :
      (c : Client) (b : Bank) (w : World) (amount : ℕ)
      → Inv sgx b w
      → IsSized c
      → Manages sgx c.send_info b (take_out amount)
      → Deals c w
          (take_out amount)
          (teller (record { bank = b; pre_amount = c.pre_amount }) (take_out amount))
  unfolding teller written
  deal-take_out c b w amount v size (int, small, few) =
      let (b', n) = apply b (λ a. debit a amount) in
      let text = withdraw_text amount in
      let sent = record c { send_info = text ++ (0 ∷ drop (length text + 1) c.send_info) } in
      let (d, prepared, same, answer) = take_out-respond server c b amount size.info_size int in
      let long : length text < length c.send_info =
        omega
          (arith, length-withdraw_text amount, length-print_ld-int amount int, size.info_size) in
      let here = prepare-take_out c amount long in
      let answered = respond-few c d sent b (take_out amount) _ _ prepared here answer few in
      let (w', run, inv) = ecall_my_withdraw-apply sgx laws b w amount v in
      let fits = (let l = inv.live in l.fits) in
      let whole = length-printed text c.send_info long ∙ size.info_size in
      elim (Bool-cases (ltb n amount)) [
        | inl below ↦
            let (e, shown, pre) = on_reply-too_big machine sent size.data_size in
            rw below (
              deal c sent b b' w (take_out amount) true (codes "too big.") e c.pre_amount
                (too_big ∷ total c.pre_amount ∷ []) v size here refl whole
                (answered ∙ tell_withdrawn-too_big b' amount n (ground arith)) fits shown pre)
        | inr above ↦
            let (e, shown, pre, login, info) =
              on_reply-balance_text machine server sent n small size.data_size in
            rw above (
              deal c sent b b' w (take_out amount) true (balance_text server n) e n (total n ∷ []) v
                size here refl whole
                (answered ∙ tell_withdrawn-balance server b' amount n (ground arith) small) fits
                shown pre)
      ]
