-- ===== src/Client/Kept.antt =====
-- What an answer leaves unchanged at the terminal, and the answer to a withdrawal that is too big.
use seccap_sgx_bank.Base.{
  ℕ, ◌≡◌, inl, inr, refl, ap, ◌∙◌, true, false, Bool, some, Option-cases, List, [], ◌∷◌, ◌++◌,
  subst, if◌then◌else◌, length, drop, arith, Bytes,
}
use seccap_sgx_bank.CLib.{overwrite, strncmp_eq}
use seccap_sgx_bank.Server.{Machine, codes}
use seccap_sgx_bank.Client.{Client, Notice, total, too_big, show_reply, on_reply}
use seccap_sgx_bank.Client.Buffer.{overwrite-drop}

-- The buffer of what is sent, and the length of the other one.
pub record Kept (c d : Client) : Type 0 where
  pub info : d.send_info ≡ c.send_info
  pub size : length d.receive_data ≡ length c.receive_data

length-overwrite :
    (src dst : Bytes) {s : Bytes} → overwrite src dst ≡ some s → length s ≡ length dst
unfolding overwrite
length-overwrite [] dst e = ground arith
length-overwrite (x ∷ src) [] e = cc
length-overwrite (x ∷ src) (y ∷ dst) {s} e = elim (Option-cases (overwrite src dst)) [
  | inl short ↦ absurd (ground arith)
  | inr (rest, is) ↦
      let n = length-overwrite src dst is in
      let whole : s ≡ x ∷ rest = ground arith in rw whole (omega (arith, n))
]

module _ (machine : Machine) where
  -- What an answer leaves: the buffer of what is sent, what has been received, and, for a message
  -- after which no balance is expected, the amount that was shown last.
  record Leaves (flag : Bool) (c : Client) (p : Client × List Notice) : Type 0 where
    info : (let d = p.0 in d.send_info) ≡ c.send_info
    received : (let d = p.0 in d.receive_data) ≡ c.receive_data
    pre : flag ≡ false → (let d = p.0 in d.pre_amount) ≡ c.pre_amount

  Leaves-if :
      (flag t : Bool) (c : Client) (p q : Client × List Notice)
      → Leaves flag c p
      → Leaves flag c q
      → Leaves flag c (if t then p else q)
  Leaves-if flag true c p q h k = h
  Leaves-if flag false c p q h k = k

  Leaves-refl : (flag : Bool) (c : Client) (notices : List Notice) → Leaves flag c (c, notices)
  Leaves-refl flag c notices = record { info = refl; received = refl; pre = λ e. refl }

  Leaves-login :
      (flag login : Bool) (c : Client) (notices : List Notice)
      → Leaves flag c (record c { login = login }, notices)
  Leaves-login flag login c notices = record { info = refl; received = refl; pre = λ e. refl }

  Leaves-amount :
      (n : ℕ) (c : Client) (notices : List Notice)
      → Leaves true c (record c { pre_amount = n }, notices)
  Leaves-amount n c notices = record {
    info = refl;
    received = refl;
    pre = λ e. absurd (ground arith);
  }

  show_reply-Leaves : (flag : Bool) (c : Client) → Leaves flag c (show_reply machine flag c)
  unfolding show_reply
  show_reply-Leaves true c = search (Leaves-if, Leaves-refl, Leaves-login, Leaves-amount) depth 6
  show_reply-Leaves false c = search (Leaves-if, Leaves-refl, Leaves-login) depth 6

  pub on_reply-Kept :
      (flag : Bool) (bytes : Bytes) (c d : Client) (shown : List Notice)
      → on_reply machine flag bytes c ≡ some (d, shown)
      → Kept c d × (flag ≡ false → d.pre_amount ≡ c.pre_amount)
  unfolding on_reply
  on_reply-Kept flag bytes c d shown e = elim (Option-cases (overwrite bytes c.receive_data)) [
    | inl long ↦ absurd (ground arith)
    | inr (s, is) ↦
        let here : show_reply machine flag (record c { receive_data = s }) ≡ (d, shown) =
          ground (arith, is) in
        let left =
          subst (Leaves flag (record c { receive_data = s })) here
            (show_reply-Leaves flag (record c { receive_data = s })) in
        (
          record {
            info = left.info;
            size = ap length left.received ∙ length-overwrite bytes c.receive_data is;
          },
          left.pre,
        )
  ]

  -- A withdrawal that is too big shows the amount that was shown last.
  pub on_reply-too_big :
      (c : Client)
      → length c.receive_data ≡ 1024
      → (e : Client) × (on_reply machine true (codes "too big.") c
          ≡ some (e, too_big ∷ total c.pre_amount ∷ []))
        × (e.pre_amount ≡ c.pre_amount)
  unfolding on_reply show_reply strncmp_eq
  on_reply-too_big c n = (
    record c { receive_data = codes "too big." ++ drop 8 c.receive_data },
    ground (arith, overwrite-drop (codes "too big.") c.receive_data (omega arith)),
    refl,
  )
