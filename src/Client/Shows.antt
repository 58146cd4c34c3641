-- ===== src/Client/Shows.antt =====
-- What the terminal shows of the server's answers.
use seccap_sgx_bank.Base.{
  ℕ, ◌+◌, ◌^◌, ◌<◌, ◌≤◌, ◌≡◌, refl, true, false, some, [], ◌∷◌, ◌++◌, append_assoc, lt→ltb, length,
  length-append, drop, All, arith, Bytes,
}
use seccap_sgx_bank.CLib.{print_ld, digits, atoi, strncmp_eq}
use seccap_sgx_bank.CLib.Decimal.{IsDigit, digits-IsDigit, length-digits-pos, atoi-digits}
use seccap_sgx_bank.Server.{Machine, codes}
use seccap_sgx_bank.Server.Replies.{balance_text, length-print_ld-le}
use seccap_sgx_bank.Client.{Client, total, wrong_password, show_reply, on_reply}
use seccap_sgx_bank.Client.Buffer.{overwrite-drop, length-drop}

-- A number is neither of the texts that the terminal looks for.
strncmp_eq-IsDigit :
    (s rest : Bytes)
    → All IsDigit s
    → 0 < length s
    → (strncmp_eq (s ++ rest) (codes "login") 5 ≡ false)
      × (strncmp_eq (s ++ rest) (codes "too big.") 8 ≡ false)
      × (strncmp_eq (s ++ rest) (codes "login fail.") 11 ≡ false)
unfolding strncmp_eq
strncmp_eq-IsDigit [] rest d h = absurd (omega arith)
strncmp_eq-IsDigit (x ∷ s) rest d h = (ground arith, ground arith, ground arith)

pub print_ld-digits : (n : ℕ) → n < 2 ^ 63 → print_ld n ≡ digits 20 n
unfolding print_ld
print_ld-digits n h = rw (lt→ltb n (2 ^ 63) h)

strncmp_eq-print_ld :
    (n : ℕ) (rest : Bytes)
    → n < 2 ^ 63
    → (strncmp_eq (print_ld n ++ rest) (codes "login") 5 ≡ false)
      × (strncmp_eq (print_ld n ++ rest) (codes "too big.") 8 ≡ false)
      × (strncmp_eq (print_ld n ++ rest) (codes "login fail.") 11 ≡ false)
strncmp_eq-print_ld n rest h =
    rw (print_ld-digits n h)
      (strncmp_eq-IsDigit (digits 20 n) rest (digits-IsDigit 20 n) (length-digits-pos 19 n))

show_number :
    (machine : Machine) (c : Client) (s : Bytes) (n : ℕ)
    → strncmp_eq s (codes "login") 5 ≡ false
    → strncmp_eq s (codes "too big.") 8 ≡ false
    → strncmp_eq s (codes "login fail.") 11 ≡ false
    → atoi (machine.atoi_open) s ≡ n
    → show_reply machine true (record c { receive_data = s })
      ≡ (record c { receive_data = s; pre_amount = n }, total n ∷ [])
unfolding show_reply
show_number machine c s n h k l e = ground arith

-- The terminal shows the balance that the server sends for a deposit or a withdrawal, for a
-- balance below 10 ^ 7, and remembers it; nothing else is shown, and the login is unchanged.
pub on_reply-balance_text :
    (machine server : Machine) (c : Client) (n : ℕ)
    → n < 10 ^ 7
    → length c.receive_data ≡ 1024
    → (d : Client) × (on_reply machine true (balance_text server n) c ≡ some (d, total n ∷ []))
      × (d.pre_amount ≡ n)
      × (d.login ≡ c.login)
      × (d.send_info ≡ c.send_info)
unfolding on_reply
on_reply-balance_text machine server c n h k =
    let garbage = drop (length (print_ld n) + 1) (server.garbage 8) in
    let text = balance_text server n in
    let behind = drop (length text) c.receive_data in
    let bytes = text ++ behind in
    let whole : bytes ≡ print_ld n ++ (0 ∷ (garbage ++ behind)) =
      append_assoc (print_ld n) (0 ∷ garbage) behind in
    let (first, second, third) = strncmp_eq-print_ld n (0 ∷ (garbage ++ behind)) (omega arith) in
    let value = atoi-digits (machine.atoi_open) n (0 ∷ (garbage ++ behind)) (omega arith) refl in
    let fits : length text ≤ length c.receive_data = omega (
      arith,
      length-append (print_ld n) (0 ∷ garbage),
      length-print_ld-le n h,
      length-drop (length (print_ld n) + 1) (server.garbage 8),
      server.length-garbage 8,
    ) in
    let shown =
      show_number machine c bytes n (rw whole first) (rw whole second) (rw whole third)
        (rw whole value) in
    (
      record c { receive_data = bytes; pre_amount = n },
      ground (arith, overwrite-drop text c.receive_data fits, shown),
      refl,
      refl,
      refl,
    )

-- A refused login is shown as a total of 0 before the refusal, because the answer "login fail."
-- begins with the text of an accepted one.
pub show_reply-login_fail :
    (machine : Machine) (c : Client) (rest : Bytes)
    → show_reply machine false (record c { receive_data = codes "login fail." ++ rest }) ≡ (
      record c { receive_data = codes "login fail." ++ rest; login = false },
      total 0 ∷ wrong_password ∷ [],
    )
unfolding show_reply atoi strncmp_eq
show_reply-login_fail machine c rest = refl
