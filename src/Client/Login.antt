-- ===== src/Client/Login.antt =====
-- A login at the terminal, its way to the bank, and what is shown of the answer.
use seccap_sgx_bank.Base.{
  ℕ, ◌+◌, ◌^◌, ◌<◌, ◌≤◌, ◌≡◌, ◌⊎◌, inl, inr, refl, ap, ◌∙◌, true, false, some, Option-cases,
  Bool-cases, [], ◌∷◌, ◌++◌, append_assoc, length, length-append, get_elem?-length, All,
  All-get_elem?, drop, bytes_eq, arith, Bytes,
}
use seccap_sgx_bank.CLib.{c_str, strncmp_eq, print_ld, digits, atoi}
use seccap_sgx_bank.CLib.Text.{c_str-IsText}
use seccap_sgx_bank.CLib.Decimal.{IsDigit, digits-IsDigit, length-digits-pos, atoi-digits}
use seccap_sgx_bank.UserTypes.{ProcessResult, process_success, account_set_fail}
use seccap_sgx_bank.Account.{Account}
use seccap_sgx_bank.Account
use seccap_sgx_bank.Bank.{Bank, position, log_in, in_use}
use seccap_sgx_bank.Bank.Sound.{position-some}
use seccap_sgx_bank.World.{ok}
use seccap_sgx_bank.DealManager.Parse.{IsField}
use seccap_sgx_bank.Enclave.Login.{IsCredential, log_in-none, log_in-some}
use seccap_sgx_bank.Server.{Machine, reply, codes}
use seccap_sgx_bank.Server.Split.{message}
use seccap_sgx_bank.Server.Cut.{cut, cut-field}
use seccap_sgx_bank.Server.Replies.{length-print_ld-le}
use seccap_sgx_bank.Server.Respond.{respond, perform, on_login, greet, printed}
use seccap_sgx_bank.Client.{Client, total, wrong_password, show_reply, on_reply}
use seccap_sgx_bank.Client.Buffer.{overwrite-drop, length-drop}
use seccap_sgx_bank.Client.Shows.{show_reply-login_fail, print_ld-digits}

-- A balance that the server's arrays have room for.
abbrev pub IsPrintable : Account → Type 0
IsPrintable a = a.deposits < 10 ^ 7

-- The customer of that name is served, after a login with the right password or not.
pub record Serves (name : Bytes) (b : Bank) (r : ProcessResult) : Type 0 where
  pub at : ℕ
  pub account : Account
  pub used : in_use b ≡ some (at, account)
  pub named : account.name ≡ name
  pub printable : IsPrintable account
  pub decided : (r ≡ process_success) ⊎ (r ≡ account_set_fail)

pub log_in-Serves :
    (b : Bank) (name password : Bytes)
    → All IsPrintable b.accounts
    → Serves name (log_in b name password).0 (log_in b name password).1
unfolding in_use
log_in-Serves b name password h = elim (Option-cases (position name b.accounts)) [
  | inl unknown ↦ rw (log_in-none b name password unknown) (record {
    at = length b.accounts;
    account = Account.new_account name password;
    used = ground (arith, get_elem?-length b.accounts (Account.new_account name password));
    named = refl;
    printable = omega arith;
    decided = inl refl;
  })
  | inr (i, known) ↦
      let (a, found, named) = position-some name b.accounts i known in
      rw (log_in-some b name password known found) (record {
        at = i;
        account = a;
        used = ground (arith, found);
        named = named;
        printable = All-get_elem? IsPrintable b.accounts i h found;
        decided = elim (Bool-cases (bytes_eq password a.password)) [
          | inl same ↦ inl (rw same)
          | inr other ↦ inr (rw other)
        ];
      })
]

cut-tail : (s : Bytes) → IsField s → cut s ≡ ([], s)
unfolding cut
cut-tail [] h = refl
cut-tail (c ∷ s) h = ground (arith, cut-tail s h.1)

cut-login :
    (name password rest : Bytes)
    → IsField name
    → IsField password
    → IsField rest
    → cut (message (codes "login" ∷ name ∷ password ∷ []) rest)
      ≡ (codes "login" ∷ name ∷ password ∷ [], rest)
cut-login name password rest n p h =
    let word : IsField (codes "login") = ground arith in
    cut-field (codes "login") (name ++ (b',' ∷ (password ++ (b',' ∷ rest)))) word
    ∙ ap (λ c. (codes "login" ∷ c.0, c.1))
        (cut-field name (password ++ (b',' ∷ rest)) n
          ∙ ap (λ c. (name ∷ c.0, c.1))
              (cut-field password rest p ∙ ap (λ c. (password ∷ c.0, c.1)) (cut-tail rest h)))

c_str-login : c_str (codes "login") ≡ codes "login"
unfolding c_str
c_str-login = refl

module _ (server : Machine) where
  pub respond-login :
      (b : Bank) (name password rest : Bytes)
      → IsCredential name
      → IsCredential password
      → IsField rest
      → respond server b (message (codes "login" ∷ name ∷ password ∷ []) rest)
        ≡ greet server (log_in b name password)
  unfolding respond perform on_login strncmp_eq
  respond-login b name password rest n p h =
      rw
        (
          cut-login name password rest n.field p.field h,
          c_str-login,
          c_str-IsText name n.text,
          c_str-IsText password p.text,
        )
        refl

  -- The array of 13 bytes that answers a login.
  abbrev pub login_answer : ℕ → Bytes
  login_answer n =
      (codes "login" ++ print_ld n)
      ++ (0 ∷ drop (length (codes "login" ++ print_ld n) + 1) (server.garbage 13))

  pub greet-success :
      (b : Bank) (i : ℕ) (a : Account)
      → in_use b ≡ some (i, a)
      → IsPrintable a
      → greet server (b, process_success) ≡ (ok (reply (login_answer a.deposits)), b)
  unfolding greet printed
  greet-success b i a used h = ground (arith, used, length-print_ld-le a.deposits h)

  pub greet-fail :
      (b : Bank) → greet server (b, account_set_fail) ≡ (ok (reply (codes "login fail.")), b)
  unfolding greet
  greet-fail b = refl

-- What follows "login" is a number.
strncmp_eq-login_answer :
    (s rest : Bytes)
    → All IsDigit s
    → 0 < length s
    → (strncmp_eq (codes "login" ++ (s ++ rest)) (codes "login") 5 ≡ true)
      × (strncmp_eq (codes "login" ++ (s ++ rest)) (codes "too big.") 8 ≡ false)
      × (strncmp_eq (codes "login" ++ (s ++ rest)) (codes "login fail.") 11 ≡ false)
unfolding strncmp_eq
strncmp_eq-login_answer [] rest d h = absurd (omega arith)
strncmp_eq-login_answer (x ∷ s) rest d h = (refl, refl, ground arith)

strncmp_eq-login_number :
    (n : ℕ) (rest : Bytes)
    → n < 2 ^ 63
    → (strncmp_eq (codes "login" ++ (print_ld n ++ rest)) (codes "login") 5 ≡ true)
      × (strncmp_eq (codes "login" ++ (print_ld n ++ rest)) (codes "too big.") 8 ≡ false)
      × (strncmp_eq (codes "login" ++ (print_ld n ++ rest)) (codes "login fail.") 11 ≡ false)
strncmp_eq-login_number n rest h =
    rw (print_ld-digits n h)
      (strncmp_eq-login_answer (digits 20 n) rest (digits-IsDigit 20 n) (length-digits-pos 19 n))

module _ (machine : Machine) where
  show_welcome :
      (c : Client) (s : Bytes) (n : ℕ)
      → strncmp_eq (codes "login" ++ s) (codes "login") 5 ≡ true
      → strncmp_eq (codes "login" ++ s) (codes "too big.") 8 ≡ false
      → strncmp_eq (codes "login" ++ s) (codes "login fail.") 11 ≡ false
      → atoi (machine.atoi_open) s ≡ n
      → show_reply machine false (record c { receive_data = codes "login" ++ s })
        ≡ (record c { receive_data = codes "login" ++ s }, total n ∷ [])
  unfolding show_reply
  show_welcome c s n h k l e = ground arith

  pub on_reply-login_answer :
      (server : Machine) (c : Client) (n : ℕ)
      → n < 10 ^ 7
      → length c.receive_data ≡ 1024
      → (e : Client) × (on_reply machine false (login_answer server n) c ≡ some (e, total n ∷ []))
        × (e.login ≡ c.login)
  unfolding on_reply
  on_reply-login_answer server c n h k =
      let garbage = drop (length (codes "login" ++ print_ld n) + 1) (server.garbage 13) in
      let text = login_answer server n in
      let behind = drop (length text) c.receive_data in
      let number = print_ld n ++ (0 ∷ (garbage ++ behind)) in
      let whole : text ++ behind ≡ codes "login" ++ number =
        ap (λ s. codes "login" ++ s) (append_assoc (print_ld n) (0 ∷ garbage) behind) in
      let (first, second, third) =
        strncmp_eq-login_number n (0 ∷ (garbage ++ behind)) (omega arith) in
      let value = atoi-digits (machine.atoi_open) n (0 ∷ (garbage ++ behind)) (omega arith) refl in
      let fits : length text ≤ length c.receive_data = omega (
        arith,
        length-append (codes "login" ++ print_ld n) (0 ∷ garbage),
        length-append (codes "login") (print_ld n),
        length-print_ld-le n h,
        length-drop (length (codes "login" ++ print_ld n) + 1) (server.garbage 13),
        server.length-garbage 13,
      ) in
      let shown = show_welcome c number n first second third value in
      (
        record c { receive_data = codes "login" ++ number },
        ground (arith, overwrite-drop text c.receive_data fits, whole, shown),
        refl,
      )

  pub on_reply-login_fail :
      (c : Client)
      → length c.receive_data ≡ 1024
      → (e : Client) × (on_reply machine false (codes "login fail.") c
          ≡ some (e, total 0 ∷ wrong_password ∷ []))
        × (e.login ≡ false)
  unfolding on_reply
  on_reply-login_fail c k =
      let bytes = codes "login fail." ++ drop 11 c.receive_data in
      let fits = overwrite-drop (codes "login fail.") c.receive_data (omega arith) in
      (
        record c { receive_data = bytes; login = false },
        ground (arith, fits, show_reply-login_fail machine c (drop 11 c.receive_data)),
        refl,
      )
