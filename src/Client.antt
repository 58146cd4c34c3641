-- ===== src/Client.antt =====
-- Seccap_client/client.cpp: the terminal. What the customer types is an `Input`, what the server
-- answers is the list of bytes that one `recv` stores. Both buffers keep what they held before.
pub mod Buffer
pub mod Stale
pub mod Shows
pub mod Amounts
pub mod Conversation
pub mod Login
pub mod Welcome
pub mod Teller
pub mod Kept
pub mod Deal
pub mod Visit
pub mod Leftover
use seccap_sgx_bank.Base.{
  ℕ, zero, suc, ◌+◌, ◌%◌, Bool, true, false, not, ◌&&◌, Option, none, some, List, [], ◌∷◌, ◌++◌,
  ltb, if◌then◌else◌, length, drop, Bytes,
}
use seccap_sgx_bank.CLib.{u16_mod, overwrite, strncmp_eq, print_ld, atoi}
use seccap_sgx_bank.Server.{Machine, codes}

infixl 5 ◌>>=◌
abbrev ◌>>=◌ : {A B : Type 0} → Option A → (A → Option B) → Option B
◌>>=◌ none f = none
◌>>=◌ (some a) f = f a

pub record Client : Type 0 where
  pub send_info : Bytes
  pub receive_data : Bytes
  pub login : Bool
  pub pre_amount : ℕ

-- The operation number, with what is read for it.
pub data Input : Type 0 where
  sign_in : Bytes → Bytes → Input
  pay_in take_out : ℕ → Input
  finish other : Input

-- The texts that the terminal shows of an answer.
pub data Notice : Type 0 where
  total : ℕ → Notice
  too_big wrong_password : Notice

-- What an input leads to: the loop is left, or the buffer is sent. The flag is `deposit_print`.
pub data Step : Type 0 where
  leave : Step
  send : Client → Bool → Step

-- The port and the text of the address, which is printed into an array of 9 bytes.
unfoldable pub connect_to : Machine → Bytes → Option (ℕ × Bytes)
connect_to machine arg =
    let text = codes "127.0." ++ arg ++ codes ".1" in
    if ltb (length text) 9
    then some ((1230 + atoi (machine.atoi_open) arg) % u16_mod, text)
    else none

-- The state before the loop: neither buffer has been initialised.
unfoldable pub start : Machine → Client
start machine = record {
  send_info = machine.garbage 1024;
  receive_data = machine.garbage 1024;
  login = false;
  pre_amount = 0;
}

-- `sprintf(send_info, ...)`
unfoldable pub sprintf_over : Bytes → Client → Option Client
unfolding overwrite
sprintf_over text c = elim (overwrite (text ++ 0 ∷ []) c.send_info) [
  | none ↦ none
  | some bytes ↦ some (record c { send_info = bytes })
]

-- One input up to `send`; `none` is a write outside of an array. Words of 100 bytes and more do
-- not fit `account_name` and `password`.
unfoldable pub prepare : Input → Client → Option Step
unfolding sprintf_over
prepare (sign_in account_name password) c =
    if ltb (length account_name) 100 && ltb (length password) 100
    then (do
      filled ← sprintf_over (codes "login," ++ account_name ++ codes "," ++ password ++ codes ",") c
      some (send (record filled { login = true }) false))
    else none
prepare (pay_in amount) c = do
  filled ← sprintf_over (codes "deposit," ++ print_ld amount ++ codes ",") c
  some (send filled true)
prepare (take_out amount) c = do
  filled ← sprintf_over (codes "withdraw," ++ print_ld amount ++ codes ",") c
  some (send filled true)
prepare finish c = some leave
prepare other c = some (send c false)

-- The tests of the answer, in their order.
unfoldable pub show_reply : Machine → Bool → Client → Client × List Notice
unfolding strncmp_eq
show_reply machine deposit_print c =
    let signed_in =
      if strncmp_eq c.receive_data (codes "login") 5
      then total (atoi (machine.atoi_open) (drop 5 c.receive_data)) ∷ []
      else [] in
    if strncmp_eq c.receive_data (codes "too big.") 8
    then (c, signed_in ++ too_big ∷ total c.pre_amount ∷ [])
    else if strncmp_eq c.receive_data (codes "login fail.") 11 && not deposit_print
    then (record c { login = false }, signed_in ++ wrong_password ∷ [])
    else if deposit_print
    then (let n = atoi (machine.atoi_open) c.receive_data in
        (record c { pre_amount = n }, signed_in ++ total n ∷ []))
    else (c, signed_in)

-- `recv` of at most 1024 bytes, and what is done with them; `none` for more.
unfoldable pub on_reply : Machine → Bool → Bytes → Client → Option (Client × List Notice)
unfolding overwrite
on_reply machine deposit_print bytes c = do
  received ← overwrite bytes c.receive_data
  some (show_reply machine deposit_print (record c { receive_data = received }))

-- The loop, over what is typed and what is answered (`none` where `send` fails): the buffers that
-- were sent, and what was shown.
unfoldable pub converse :
    Machine → List (Input × Option Bytes) → Client → Option (List Bytes × List Notice)
converse machine [] c = some ([], [])
converse machine ((input, answer) ∷ more) c = do
  step ← prepare input c
  elim step [
    | leave ↦ some ([], [])
    | send sent deposit_print ↦ do
      (next, shown) ← elim answer [
        | none ↦ some (sent, [])
        | some bytes ↦ on_reply machine deposit_print bytes sent
      ]
      (buffers, notices) ← converse machine more next
      some (sent.send_info ∷ buffers, shown ++ notices)
  ]

-- `main`: where the server is, the buffers that were sent, and what was shown.
unfoldable pub main :
    Machine → Bytes → List (Input × Option Bytes) → Option ((ℕ × Bytes) × List Bytes × List Notice)
main machine arg script = do
  server ← connect_to machine arg
  (buffers, notices) ← converse machine script (start machine)
  some (server, buffers, notices)
