-- ===== src/Client/Buffer.antt =====
-- What the server makes of the terminal's buffer, which keeps its old tail from message to message.
use seccap_sgx_bank.Base.{
  ℕ, zero, suc, ◌+◌, ◌-◌, ◌^◌, ◌<◌, ◌≤◌, ◌≡◌, ◌≢◌, refl, sym, ap, ◌∙◌, true, false, some, [], ◌∷◌,
  ◌++◌, append_assoc, lt→ltb, length, length-append, take, take-append, drop, replicate, All-imp,
  arith, Bytes,
}
use seccap_sgx_bank.CLib.{overwrite, print_ld, digits}
use seccap_sgx_bank.CLib.Decimal.{IsDigit, digits-IsDigit}
use seccap_sgx_bank.DealManager.Parse.{IsField}
use seccap_sgx_bank.Server.{codes, receive_buf, split}
use seccap_sgx_bank.Server.Split.{message, split-message}
use seccap_sgx_bank.Client.{Client, send, sign_in, sprintf_over, prepare}

pub overwrite-drop :
    (src dst : Bytes)
    → length src ≤ length dst
    → overwrite src dst ≡ some (src ++ drop (length src) dst)
unfolding overwrite
overwrite-drop [] dst h = refl
overwrite-drop (x ∷ src) [] h = absurd (omega arith)
overwrite-drop (x ∷ src) (y ∷ dst) h = ground (arith, overwrite-drop src dst)

pub drop-IsField : (n : ℕ) (s : Bytes) → IsField s → IsField (drop n s)
drop-IsField zero s h = h
drop-IsField (suc n) [] h = tt
drop-IsField (suc n) (c ∷ s) h = drop-IsField n s h.1

pub length-drop : (n : ℕ) (s : Bytes) → length (drop n s) ≡ length s - n
length-drop zero s = omega arith
length-drop (suc n) [] = omega arith
length-drop (suc n) (c ∷ s) = ground (arith, length-drop n s)

pub drop-before : (n : ℕ) (s t : Bytes) → n ≤ length s → drop n (s ++ t) ≡ drop n s ++ t
drop-before zero s t h = refl
drop-before (suc n) [] t h = absurd (omega arith)
drop-before (suc n) (c ∷ s) t h = drop-before n s t (omega arith)

pub receive_buf-full : (s : Bytes) → length s ≡ 1024 → receive_buf s ≡ s
unfolding receive_buf
receive_buf-full s h =
    ap (λ n. take n (s ++ replicate 1024 0)) (sym h) ∙ take-append s (replicate 1024 0)

pub print_ld-IsField : (n : ℕ) → IsField (print_ld n)
unfolding print_ld
print_ld-IsField n =
    let plain = λ (m : ℕ).
      All-imp IsDigit (λ c. c ≢ b',') (digits 20 m) (λ c d. omega arith) (digits-IsDigit 20 m) in
    ground (arith, plain n, plain (2 ^ 64 - n))

-- `sprintf` over a buffer that is long enough.
pub sprintf_over-drop :
    (text : Bytes) (c : Client)
    → length text < length c.send_info
    → sprintf_over text c
      ≡ some (record c { send_info = text ++ (0 ∷ drop (length text + 1) c.send_info) })
unfolding sprintf_over
sprintf_over-drop text c h = ground (
  arith,
  overwrite-drop (text ++ 0 ∷ []) c.send_info,
  length-append text (0 ∷ []),
  append_assoc text (0 ∷ []) (drop (length text + 1) c.send_info),
)

abbrev login_text : Bytes → Bytes → Bytes
login_text name password = codes "login," ++ name ++ codes "," ++ password ++ codes ","

length-login_text :
    (name password : Bytes) → length (login_text name password) ≡ length name + length password + 8
length-login_text name password = omega (
  arith,
  length-append name (b',' ∷ []),
  length-append (name ++ b',' ∷ []) password,
  length-append (name ++ b',' ∷ [] ++ password) (b',' ∷ []),
)

login_text-message :
    (name password rest : Bytes)
    → login_text name password ++ rest ≡ message (codes "login" ∷ name ∷ password ∷ []) rest
login_text-message name password rest = simp append_assoc

-- The terminal after a login.
abbrev pub signed_in : Client → Bytes → Bytes → Client
signed_in c name password = record c {
  send_info =
      message (codes "login" ∷ name ∷ password ∷ [])
        (0 ∷ drop (length name + length password + 9) c.send_info);
  login = true;
}

pub prepare-sign_in :
    (c : Client) (name password : Bytes)
    → length c.send_info ≡ 1024
    → length name < 100
    → length password < 100
    → prepare (sign_in name password) c ≡ some (send (signed_in c name password) false)
unfolding prepare
prepare-sign_in c name password n h k =
    let size = length-login_text name password in
    let run = sprintf_over-drop (login_text name password) c (omega (arith, size)) in
    ground (
      arith,
      run,
      size,
      login_text-message name password (0 ∷ drop (length name + length password + 9) c.send_info),
      lt→ltb (length name) 100 h,
      lt→ltb (length password) 100 k,
    )

pub length-signed_in :
    (c : Client) (name password : Bytes)
    → length c.send_info ≡ 1024
    → length name < 100
    → length password < 100
    → (let d = signed_in c name password in length d.send_info ≡ 1024)
length-signed_in c name password n h k =
    let rest = drop (length name + length password + 9) c.send_info in
    let size = length-login_text name password in
    sym (ap length (login_text-message name password (0 ∷ rest)))
    ∙ omega (
      arith,
      size,
      length-append (login_text name password) (0 ∷ rest),
      length-drop (length name + length password + 9) c.send_info,
    )

pub rest-IsField :
    (c : Client) (name password : Bytes)
    → IsField c.send_info
    → IsField (0 ∷ drop (length name + length password + 9) c.send_info)
rest-IsField c name password f =
    (omega arith, drop-IsField (length name + length password + 9) c.send_info f)

-- A login of a name and a password without commas, of less than 100 bytes each, from a buffer
-- that holds no comma: the server splits what it receives into "login", the name and the password.
pub split-sign_in :
    (c : Client) (name password : Bytes)
    → length c.send_info ≡ 1024
    → IsField c.send_info
    → IsField name
    → IsField password
    → length name < 100
    → length password < 100
    → (d : Client) × (prepare (sign_in name password) c ≡ some (send d false))
      × (split (receive_buf d.send_info) ≡ some (codes "login" ∷ name ∷ password ∷ []))
split-sign_in c name password n f g p h k =
    let d = signed_in c name password in
    let fields = codes "login" ∷ name ∷ password ∷ [] in
    let login : IsField (codes "login") = ground arith in
    (
      d,
      prepare-sign_in c name password n h k,
      rw (receive_buf-full d.send_info (length-signed_in c name password n h k)) (
          split-message fields (0 ∷ drop (length name + length password + 9) c.send_info)
            (login, (g, (p, tt))) (rest-IsField c name password f)),
    )
