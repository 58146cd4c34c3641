-- ===== src/Client/Stale.antt =====
-- Two messages of the terminal in turn: the second is shorter than the first.
use seccap_sgx_bank.Base.{
  ℕ, suc, ◌+◌, ◌<◌, ◌≤◌, ◌≡◌, sym, ap, ◌∙◌, true, false, some, List, [], ◌∷◌, ◌++◌, append_assoc,
  length, length-append, drop, arith, Bytes,
}
use seccap_sgx_bank.CLib.{print_ld}
use seccap_sgx_bank.Sgx.{Sgx}
use seccap_sgx_bank.World.{World, stop, out_of_bounds}
use seccap_sgx_bank.DealManager.Parse.{IsField}
use seccap_sgx_bank.Server.{Machine, codes, receive_buf, handle}
use seccap_sgx_bank.Server.Split.{message}
use seccap_sgx_bank.Server.Messages.{handle-four}
use seccap_sgx_bank.Client.{Client, send, sign_in, pay_in, prepare}
use seccap_sgx_bank.Client.Buffer.{
  drop-IsField, length-drop, drop-before, receive_buf-full, print_ld-IsField, sprintf_over-drop,
  signed_in, prepare-sign_in, length-signed_in, rest-IsField,
}

-- The buffer of a deposit over that of a login with a long name.
drop-signed_in :
    (name rest : Bytes) (k : ℕ)
    → k + 4 ≤ length name
    → drop (k + 10) (codes "login," ++ (name ++ rest)) ≡ drop (k + 4) name ++ rest
drop-signed_in name rest k h =
    let e : k + 10 ≡ suc (suc (suc (suc (suc (suc (k + 4)))))) = omega arith in
    ap (λ n. drop n (codes "login," ++ (name ++ rest))) e ∙ drop-before (k + 4) name rest h

-- What the server gets with a deposit after a login.
abbrev four_fields : Bytes → Bytes → ℕ → List Bytes
four_fields name password amount =
    codes "deposit"
    ∷ print_ld amount
    ∷ (0 ∷ drop (length (print_ld amount) + 4) name)
    ∷ password
    ∷ []

abbrev pub deposit_text : ℕ → Bytes
deposit_text amount = codes "deposit," ++ print_ld amount ++ codes ","

pub length-deposit_text : (amount : ℕ) → length (deposit_text amount) ≡ length (print_ld amount) + 9
length-deposit_text amount = omega (arith, length-append (print_ld amount) (b',' ∷ []))

pub prepare-pay_in :
    (d : Client) (amount : ℕ)
    → length (deposit_text amount) < length d.send_info
    → prepare (pay_in amount) d
      ≡ some (
          send
            (record d {
              send_info =
                  deposit_text amount ++ (0 ∷ drop (length (deposit_text amount) + 1) d.send_info);
            })
            true)
unfolding prepare
prepare-pay_in d amount h = ground (arith, sprintf_over-drop (deposit_text amount) d h)

-- The terminal after a login and a deposit.
abbrev paid_in : Client → Bytes → Bytes → ℕ → Client
paid_in c name password amount = record (signed_in c name password) {
  send_info =
      message (four_fields name password amount)
        (0 ∷ drop (length name + length password + 9) c.send_info);
}

buffer-pay_in :
    (name password rest : Bytes) (amount : ℕ)
    → length (print_ld amount) + 4 ≤ length name
    → deposit_text amount
        ++ (0
            ∷ drop
                (length (deposit_text amount) + 1)
                (message (codes "login" ∷ name ∷ password ∷ []) rest))
      ≡ message (four_fields name password amount) rest
buffer-pay_in name password rest amount h =
    let size : length (deposit_text amount) + 1 ≡ length (print_ld amount) + 10 =
      omega (arith, length-deposit_text amount) in
    let behind = b',' ∷ (password ++ (b',' ∷ rest)) in
    ap (λ n. deposit_text amount ++ (0 ∷ drop n (codes "login," ++ (name ++ behind)))) size
    ∙ ap (λ t. deposit_text amount ++ (0 ∷ t))
        (drop-signed_in name behind (length (print_ld amount)) h)
    ∙ ap (λ t. codes "deposit," ++ t)
        (append_assoc (print_ld amount) (b',' ∷ [])
          (0 ∷ (drop (length (print_ld amount) + 4) name ++ behind)))

prepare-paid_in :
    (c : Client) (name password : Bytes) (amount : ℕ)
    → length c.send_info ≡ 1024
    → length name < 100
    → length password < 100
    → length (print_ld amount) + 4 ≤ length name
    → prepare (pay_in amount) (signed_in c name password)
      ≡ some (send (paid_in c name password amount) true)
prepare-paid_in c name password amount n h k long =
    let rest = 0 ∷ drop (length name + length password + 9) c.send_info in
    prepare-pay_in (signed_in c name password) amount
      (omega (arith, length-deposit_text amount, length-signed_in c name password n h k))
    ∙ ap (λ (s : Bytes). some (send (record (signed_in c name password) { send_info = s }) true))
        (buffer-pay_in name password rest amount long)

length-paid_in :
    (c : Client) (name password : Bytes) (amount : ℕ)
    → length c.send_info ≡ 1024
    → length name < 100
    → length password < 100
    → length (print_ld amount) + 4 ≤ length name
    → (let d = paid_in c name password amount in length d.send_info ≡ 1024)
length-paid_in c name password amount n h k long =
    let rest = 0 ∷ drop (length name + length password + 9) c.send_info in
    let before = message (codes "login" ∷ name ∷ password ∷ []) rest in
    sym (ap length (buffer-pay_in name password rest amount long))
    ∙ omega (
      arith,
      length-append (deposit_text amount) (0 ∷ drop (length (deposit_text amount) + 1) before),
      length-drop (length (deposit_text amount) + 1) before,
      length-deposit_text amount,
      length-signed_in c name password n h k,
    )

-- A deposit after a login by a name that is at least four bytes longer than the printed amount:
-- two commas of the login are still in the buffer behind the deposit, and the server writes
-- outside of its array of three fields. The name, the password and the old buffer hold no comma,
-- and the name and the password have less than 100 bytes.
pub handle-pay_in :
    (machine : Machine) (sgx : Sgx) (w : World) (c : Client) (name password : Bytes) (amount : ℕ)
    → length c.send_info ≡ 1024
    → IsField c.send_info
    → IsField name
    → IsField password
    → length name < 100
    → length password < 100
    → length (print_ld amount) + 4 ≤ length name
    → (d : Client) × (e : Client) × (prepare (sign_in name password) c ≡ some (send d false))
      × (prepare (pay_in amount) d ≡ some (send e true))
      × (handle machine sgx (receive_buf e.send_info) w ≡ (stop out_of_bounds, w))
handle-pay_in machine sgx w c name password amount n f g p h k long =
    let e = paid_in c name password amount in
    let deposit : IsField (codes "deposit") = ground arith in
    (
      signed_in c name password,
      e,
      prepare-sign_in c name password n h k,
      prepare-paid_in c name password amount n h k long,
      rw (receive_buf-full e.send_info (length-paid_in c name password amount n h k long)) (
          handle-four machine sgx (four_fields name password amount)
            (0 ∷ drop (length name + length password + 9) c.send_info) w
            (
              deposit,
              (
                print_ld-IsField amount,
                ((omega arith, drop-IsField (length (print_ld amount) + 4) name g), (p, tt)),
              ),
            )
            (rest-IsField c name password f) (omega arith)),
    )
