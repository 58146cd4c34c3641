-- ===== src/Client/Leftover.antt =====
-- Three deposits at the terminal in a row, each of which is shorter than the one before.
use seccap_sgx_bank.Base.{
  ℕ, ◌+◌, ◌^◌, ◌<◌, ◌≤◌, ◌≡◌, sym, ap, ◌∙◌, true, none, some, [], ◌∷◌, ◌++◌, append_assoc, length,
  drop, arith, Bytes,
}
use seccap_sgx_bank.CLib.{print_ld}
use seccap_sgx_bank.Sgx.{Sgx}
use seccap_sgx_bank.World.{World, stop, out_of_bounds}
use seccap_sgx_bank.Server.{Machine, codes, receive_buf, split, handle}
use seccap_sgx_bank.Server.Cut.{commas, length-cut, split-cut}
use seccap_sgx_bank.Client.{Client, send, pay_in, prepare}
use seccap_sgx_bank.Client.Buffer.{drop-before, receive_buf-full}
use seccap_sgx_bank.Client.Stale.{deposit_text, length-deposit_text, prepare-pay_in}
use seccap_sgx_bank.Client.Amounts.{length-print_ld-int}
use seccap_sgx_bank.Client.Deal.{length-printed, send-same}

commas-append : (s t : Bytes) → commas (s ++ t) ≡ commas s + commas t
unfolding commas
commas-append [] t = omega arith
commas-append (c ∷ s) t = omega (arith, commas-append s t)

-- What a text leaves behind a shorter one: its last comma, and what it has left itself.
commas-drop :
    (front rest : Bytes) (n : ℕ)
    → n ≤ length front
    → 1 + commas rest ≤ commas (drop n (front ++ (b',' ∷ (0 ∷ rest))))
unfolding commas
commas-drop front rest n h =
    rw (drop-before n front (b',' ∷ (0 ∷ rest)) h)
      (omega (arith, commas-append (drop n front) (b',' ∷ (0 ∷ rest))))

-- The buffer after a deposit.
abbrev paid : ℕ → Bytes → Bytes
paid amount buf = deposit_text amount ++ (0 ∷ drop (length (deposit_text amount) + 1) buf)

paid-front :
    (amount : ℕ) (rest : Bytes)
    → deposit_text amount ++ (0 ∷ rest)
      ≡ (codes "deposit," ++ print_ld amount) ++ (b',' ∷ (0 ∷ rest))
paid-front amount rest =
    ap (λ s. codes "deposit," ++ s) (append_assoc (print_ld amount) (b',' ∷ []) (0 ∷ rest))

commas-paid :
    (amount n : ℕ) (buf : Bytes)
    → n ≤ length (print_ld amount) + 8
    → 1 + commas (drop (length (print_ld amount) + 10) buf) ≤ commas (drop n (paid amount buf))
commas-paid amount n buf h =
    let size : length (deposit_text amount) + 1 ≡ length (print_ld amount) + 10 =
      omega (arith, length-deposit_text amount) in
    let rest = drop (length (deposit_text amount) + 1) buf in
    rw (paid-front amount rest)
      (rw (sym size) (commas-drop (codes "deposit," ++ print_ld amount) rest n (omega arith)))

two-commas :
    (amount : ℕ) (buf : Bytes)
    → 2 + commas (drop (length (print_ld amount) + 10) buf) ≤ commas (paid amount buf)
unfolding commas
two-commas amount buf =
    let size : length (deposit_text amount) + 1 ≡ length (print_ld amount) + 10 =
      omega (arith, length-deposit_text amount) in
    let rest = drop (length (deposit_text amount) + 1) buf in
    rw (append_assoc (print_ld amount) (b',' ∷ []) (0 ∷ rest))
      (rw (sym size) (omega (arith, commas-drop (print_ld amount) rest 0 (omega arith))))

handle-commas :
    (machine : Machine) (sgx : Sgx) (buf : Bytes) (w : World)
    → 3 < commas buf
    → handle machine sgx buf w ≡ (stop out_of_bounds, w)
unfolding handle
handle-commas machine sgx buf w h =
    let many : split buf ≡ none = split-cut buf ∙ ground (arith, length-cut buf) in
    ground (arith, many)

prepare-paid :
    (c : Client) (amount : ℕ)
    → length c.send_info ≡ 1024
    → amount < 2 ^ 31
    → (prepare (pay_in amount) c
        ≡ some (send (record c { send_info = paid amount c.send_info }) true))
      × (length (paid amount c.send_info) ≡ 1024)
prepare-paid c amount n h =
    let fits : length (deposit_text amount) < length c.send_info =
      omega (arith, length-deposit_text amount, length-print_ld-int amount h) in
    (prepare-pay_in c amount fits, length-printed (deposit_text amount) c.send_info fits ∙ n)

-- Three deposits below 2 ^ 31 in a row, each printed with at least two digits less than the one
-- before, such as 10000, 100 and 1: the commas of the first two are still in the buffer behind the
-- third, and the server, in any state, writes outside of its array of three fields. This holds
-- whatever the terminal's buffer of 1024 bytes held at first, and whatever is answered in between,
-- since an answer leaves that buffer as it is.
pub pay_in-thrice :
    (machine : Machine) (sgx : Sgx) (c₁ c₂ c₃ d₁ d₂ : Client) (x y z : ℕ)
    → length c₁.send_info ≡ 1024
    → x < 2 ^ 31
    → y < 2 ^ 31
    → z < 2 ^ 31
    → length (print_ld y) + 2 ≤ length (print_ld x)
    → length (print_ld z) + 2 ≤ length (print_ld y)
    → prepare (pay_in x) c₁ ≡ some (send d₁ true)
    → c₂.send_info ≡ d₁.send_info
    → prepare (pay_in y) c₂ ≡ some (send d₂ true)
    → c₃.send_info ≡ d₂.send_info
    → (d₃ : Client) × (prepare (pay_in z) c₃ ≡ some (send d₃ true))
      × ((w : World) → handle machine sgx (receive_buf d₃.send_info) w ≡ (stop out_of_bounds, w))
pay_in-thrice machine sgx c₁ c₂ c₃ d₁ d₂ x y z n hx hy hz xy yz p₁ k₂ p₂ k₃ =
    let (q₁, n₁) = prepare-paid c₁ x n hx in
    let is₂ : c₂.send_info ≡ paid x c₁.send_info =
      k₂ ∙ ap (λ (c : Client). c.send_info) (send-same c₁ d₁ _ (pay_in x) true true p₁ q₁) in
    let (q₂, n₂) = prepare-paid c₂ y (ap length is₂ ∙ n₁) hy in
    let is₃ : c₃.send_info ≡ paid y c₂.send_info =
      k₃ ∙ ap (λ (c : Client). c.send_info) (send-same c₂ d₂ _ (pay_in y) true true p₂ q₂) in
    let (q₃, n₃) = prepare-paid c₃ z (ap length is₃ ∙ n₂) hz in
    let first : 1 ≤ commas (drop (length (print_ld y) + 10) c₂.send_info) =
      rw is₂ (omega (arith, commas-paid x (length (print_ld y) + 10) c₁.send_info (omega arith))) in
    let second : 2 ≤ commas (drop (length (print_ld z) + 10) c₃.send_info) =
      rw is₃ (omega (arith, commas-paid y (length (print_ld z) + 10) c₂.send_info (omega arith))) in
    let sent = paid z c₃.send_info in
    (
      record c₃ { send_info = sent },
      q₃,
      λ w.
          rw (receive_buf-full sent n₃)
            (handle-commas machine sgx sent w (omega (arith, two-commas z c₃.send_info))),
    )
