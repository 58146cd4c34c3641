-- ===== src/Client/Welcome.antt =====
-- The terminal and the server together: a login, from what is typed to what is shown.
use seccap_sgx_bank.Base.{
  ℕ, ◌+◌, ◌<◌, ◌≡◌, inl, inr, refl, ap, ◌∙◌, true, false, some, List, [], ◌∷◌, length, All, drop,
  arith, Bytes,
}
use seccap_sgx_bank.UserTypes.{ProcessResult, account_set_fail}
use seccap_sgx_bank.Account.{Account}
use seccap_sgx_bank.Bank.{Bank, log_in, in_use}
use seccap_sgx_bank.Sgx.{Sgx, SgxLaws}
use seccap_sgx_bank.World.{World, ok}
use seccap_sgx_bank.DealManager.Parse.{IsField}
use seccap_sgx_bank.Enclave.Inv.{Inv, Fits}
use seccap_sgx_bank.Enclave.Login.{IsCredential}
use seccap_sgx_bank.Server.{Machine, reply, codes, receive_buf, handle}
use seccap_sgx_bank.Server.Respond.{respond, greet}
use seccap_sgx_bank.Client.{Client, Notice, total, wrong_password, send, sign_in, prepare, on_reply}
use seccap_sgx_bank.Client.Buffer.{receive_buf-full, signed_in, prepare-sign_in, length-signed_in}
use seccap_sgx_bank.Client.Conversation.{handle-answer}
use seccap_sgx_bank.Client.Login.{
  IsPrintable, Serves, log_in-Serves, login_answer, respond-login, greet-success, greet-fail,
  on_reply-login_answer, on_reply-login_fail,
}

-- What a customer with that balance is shown of a login, and whether the terminal is logged in.
abbrev pub Shown : ProcessResult → ℕ → Client → List Notice → Type 0
Shown account_set_fail n e notices = (notices ≡ total 0 ∷ wrong_password ∷ []) × (e.login ≡ false)
Shown _ n e notices = (notices ≡ total n ∷ []) × (e.login ≡ true)

module _ (machine server : Machine) (sgx : Sgx) (laws : SgxLaws sgx) where
  -- The answer to a login, and what is shown of it.
  Welcomes : World → Bytes → Client → Bank → ProcessResult → ℕ → Type 0
  Welcomes w buf d b r n =
      (e : Client) × (notices : List Notice) × (text : Bytes) × (w' : World) × (handle server sgx
          buf w
        ≡ (ok (reply text), w'))
      × (on_reply machine false text d ≡ some (e, notices))
      × Shown r n e notices
      × Inv sgx b w'

  welcomes :
      (b b' : Bank) (r : ProcessResult) (w : World) (name buf : Bytes) (d : Client)
      → Inv sgx b w
      → (s : Serves name b' r) → Fits sgx b'.accounts
      → respond server b buf ≡ greet server (b', r)
      → length d.receive_data ≡ 1024
      → d.login ≡ true
      → Welcomes w buf d b' r (let a = s.account in a.deposits)
  unfolding Welcomes
  welcomes b b' r w name buf d v s fits answer m l =
      let a = s.account in
      elim s.decided [
        | inl accepted ↦
            let (w', handled, inv) =
              handle-answer server sgx laws b b' w buf (login_answer server a.deposits) v
                (answer
                  ∙ ap (λ x. greet server (b', x)) accepted
                  ∙ greet-success server b' s.at a s.used s.printable)
                fits in
            let (e, shown, login) =
              on_reply-login_answer machine server d a.deposits s.printable m in
            rw accepted (
              e,
              total a.deposits ∷ [],
              login_answer server a.deposits,
              w',
              handled,
              shown,
              (refl, login ∙ l),
              inv,
            )
        | inr refused ↦
            let (w', handled, inv) =
              handle-answer server sgx laws b b' w buf (codes "login fail.") v
                (answer ∙ ap (λ x. greet server (b', x)) refused ∙ greet-fail server b') fits in
            let (e, shown, login) = on_reply-login_fail machine d m in
            rw refused (
              e,
              total 0 ∷ wrong_password ∷ [],
              codes "login fail.",
              w',
              handled,
              shown,
              (refl, login),
              inv,
            )
      ]

  -- A login at the terminal, by a name and a password of less than 100 bytes without commas and
  -- NULs: the server answers it, and the customer of that name is then served, whatever the
  -- password. With the right password, or a new name, the terminal shows that customer's balance,
  -- and nothing else; with a wrong one it shows a total of 0 and the refusal, and the login is
  -- taken back. The state then stands for the bank after `log_in`, with the file up to date. The
  -- balances are below 10 ^ 7, the accounts fit 16 bits, also when sealed, and the terminal's
  -- buffer holds no comma behind what the message overwrites.
  pub sign_in-Shown :
      (c : Client) (b : Bank) (w : World) (name password : Bytes)
      → Inv sgx b w
      → All IsPrintable b.accounts
      → IsCredential name
      → IsCredential password
      → length name < 100
      → length password < 100
      → length c.send_info ≡ 1024
      → length c.receive_data ≡ 1024
      → IsField (drop (length name + length password + 9) c.send_info)
      → Fits sgx (let (b', r) = log_in b name password in b'.accounts)
      → let (b', r) = log_in b name password in
        (d : Client) × (e : Client) × (notices : List Notice) × (text : Bytes) × (i : ℕ)
        × (a : Account) × (w' : World) × (prepare (sign_in name password) c ≡ some (send d false))
        × (handle server sgx (receive_buf d.send_info) w ≡ (ok (reply text), w'))
        × (on_reply machine false text d ≡ some (e, notices))
        × (in_use b' ≡ some (i, a))
        × (a.name ≡ name)
        × Shown r a.deposits e notices
        × Inv sgx b' w'
  unfolding Welcomes
  sign_in-Shown c b w name password v small n p short brief k m clean fits =
      let s = log_in-Serves b name password small in
      let d = signed_in c name password in
      let rest = 0 ∷ drop (length name + length password + 9) c.send_info in
      let whole = receive_buf-full d.send_info (length-signed_in c name password k short brief) in
      let answer =
        ap (respond server b) whole
        ∙ respond-login server b name password rest n p (omega arith, clean) in
      let (e, notices, text, w', handled, shown, is, inv) =
        welcomes b (log_in b name password).0 (log_in b name password).1 w name
          (receive_buf d.send_info) d v s fits answer m refl in
      (
        d,
        e,
        notices,
        text,
        s.at,
        s.account,
        w',
        prepare-sign_in c name password k short brief,
        handled,
        shown,
        s.used,
        s.named,
        is,
        inv,
      )
