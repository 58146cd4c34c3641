-- ===== src/Server/Respond.antt =====
-- What the server promises of one message and of a session, in terms of the bank alone: no enclave,
-- no sealing and no file.
use seccap_sgx_bank.Base.{
  ℕ, ◌+◌, none, some, Bool, true, false, List, [], ◌∷◌, ◌++◌, ltb, leb, if◌then◌else◌, length, drop,
  Bytes,
}
use seccap_sgx_bank.CLib.{c_str, strncmp_eq, print_ld, atoi}
use seccap_sgx_bank.UserTypes.{ProcessResult, account_set_fail}
use seccap_sgx_bank.Bank.{credit, debit}
use seccap_sgx_bank.Bank.{Bank, log_in, in_use, apply}
use seccap_sgx_bank.World.{Result, ok, stop, out_of_bounds, null_pointer}
use seccap_sgx_bank.Server.{
  Machine, Outcome, reply, server_end, Recv, closed, failed, received, codes, receive_buf,
}
use seccap_sgx_bank.Server.Cut.{cut}

-- A result, and the bank afterwards.
abbrev pub Response : Type 0 → Type 0
Response A = Result A × Bank

abbrev pub answer_first : Bytes → Response (List Bytes × Bool) → Response (List Bytes × Bool)
answer_first text (ok (texts, ended), b) = (ok (text ∷ texts, ended), b)
answer_first text (stop s, b) = (stop s, b)

-- A session after its first message: it is over, or it goes on with the bank that is reached.
abbrev pub go_on :
    Response Outcome → (Bank → Response (List Bytes × Bool)) → Response (List Bytes × Bool)
go_on (stop s, b) rest = (stop s, b)
go_on (ok server_end, b) rest = (ok ([], true), b)
go_on (ok (reply text), b) rest = answer_first text (rest b)

module _ (machine : Machine) where
  open machine use {atoi_open, garbage}

  -- A text and its NUL in an array of `n` bytes, or a write outside of it.
  unfoldable pub printed : ℕ → Bytes → Result Outcome
  printed n text =
      if ltb n (length text + 1)
      then stop out_of_bounds
      else ok (reply (text ++ (0 ∷ drop (length text + 1) (garbage n))))

  -- A login is answered by the balance of the account, or refused.
  unfoldable pub greet : Bank × ProcessResult → Response Outcome
  unfolding printed in_use
  greet (b, account_set_fail) = (ok (reply (codes "login fail.")), b)
  greet (b, _) = (
    elim (in_use b) [
      | none ↦ stop null_pointer
      | some (i, a) ↦ printed 13 (codes "login" ++ print_ld a.deposits)
    ],
    b,
  )

  unfoldable pub tell : Bank × ℕ → Response Outcome
  unfolding printed
  tell (b, n) = (printed 8 (print_ld n), b)

  -- A withdrawal is answered by the balance afterwards, where it is no less than the amount.
  unfoldable pub tell_withdrawn : ℕ → Bank × ℕ → Response Outcome
  unfolding printed
  tell_withdrawn amount (b, n) =
      (if ltb n amount then ok (reply (codes "too big.")) else printed 8 (print_ld n), b)

  unfoldable pub on_login : Bank → List Bytes → Response Outcome
  unfolding greet log_in
  on_login b (name ∷ password ∷ _) = greet (log_in b (c_str name) (c_str password))
  on_login b _ = (stop null_pointer, b)

  unfoldable pub on_deposit : Bank → List Bytes → Response Outcome
  unfolding tell apply credit
  on_deposit b [] = (stop null_pointer, b)
  on_deposit b (text ∷ _) = tell (apply b (λ a. (credit a (atoi atoi_open (c_str text)))))

  unfoldable pub on_withdraw : Bank → List Bytes → Response Outcome
  unfolding tell_withdrawn apply debit
  on_withdraw b [] = (stop null_pointer, b)
  on_withdraw b (text ∷ _) =
      let amount = atoi atoi_open (c_str text) in
      tell_withdrawn amount (apply b (λ a. debit a amount))

  -- The fields of a message, of which the first is the instruction. Other instructions end the
  -- session, if the buffer begins with "end", or are ignored.
  unfoldable pub perform : Bank → Bytes → List Bytes → Response Outcome
  unfolding strncmp_eq
  perform b buf [] = (stop null_pointer, b)
  perform b buf (f ∷ fields) =
      let command = c_str f in
      if strncmp_eq (codes "login") command 5
      then on_login b fields
      else if strncmp_eq (codes "deposit") command 7
      then on_deposit b fields
      else if strncmp_eq (codes "withdraw") command 8
      then on_withdraw b fields
      else if strncmp_eq (codes "end") buf 3
      then (ok server_end, b)
      else (ok (reply []), b)

  unfoldable pub respond : Bank → Bytes → Response Outcome
  respond b buf =
      let (fields, tail) = cut buf in
      if leb (length fields) 3 then perform b buf fields else (stop out_of_bounds, b)

  -- A session: the answers, and whether it has been ended.
  unfoldable pub respond_all : Bank → List Recv → Response (List Bytes × Bool)
  unfolding receive_buf
  respond_all b [] = (ok ([], false), b)
  respond_all b (closed ∷ events) = respond_all b events
  respond_all b (failed ∷ events) = respond_all b events
  respond_all b (received bytes ∷ events) =
      go_on (respond b (receive_buf bytes)) (λ b'. respond_all b' events)
