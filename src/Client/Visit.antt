-- ===== src/Client/Visit.antt =====
-- A visit to the terminal, through both programs, against the promise of `Client.Teller`.
use seccap_sgx_bank.Base.{
  ℕ, ◌≡◌, refl, sym, ap, ◌∙◌, subst, false, Option, none, some, List, [], ◌∷◌, ◌++◌, length, arith,
  Bytes,
}
use seccap_sgx_bank.UserTypes.{
  ProcessResult, process_success, deposit_overflow, need_logout, account_set_fail,
}
use seccap_sgx_bank.Account.{Account}
use seccap_sgx_bank.Bank.{Bank, log_in, in_use}
use seccap_sgx_bank.Sgx.{Sgx, SgxLaws}
use seccap_sgx_bank.World.{World, ok}
use seccap_sgx_bank.Enclave.Inv.{Inv}
use seccap_sgx_bank.Server.{Machine, Recv, received, reception}
use seccap_sgx_bank.Client.{
  Client, Input, sign_in, pay_in, take_out, finish, other, Notice, prepare, converse,
}
use seccap_sgx_bank.Client.Buffer.{signed_in, prepare-sign_in, length-signed_in}
use seccap_sgx_bank.Client.Welcome.{Shown, sign_in-Shown}
use seccap_sgx_bank.Client.Teller.{
  Counter, balance_in_use, greeting, teller, teller_all, written, Manages, ManagesAll,
}
use seccap_sgx_bank.Client.Kept.{on_reply-Kept}
use seccap_sgx_bank.Client.Deal.{IsSized, send-same, Deals, deal-pay_in, deal-take_out}

Shown-greeting :
    (r : ProcessResult) (n : ℕ) (e : Client) (notices : List Notice)
    → Shown r n e notices
    → notices ≡ greeting r n
Shown-greeting account_set_fail n e notices h = h.0
Shown-greeting process_success n e notices h = h.0
Shown-greeting deposit_overflow n e notices h = h.0
Shown-greeting need_logout n e notices h = h.0

balance_in_use-some :
    (b : Bank) (i : ℕ) (a : Account) → in_use b ≡ some (i, a) → balance_in_use b ≡ a.deposits
unfolding balance_in_use
balance_in_use-some b i a e = ground (arith, e)

-- A counter at which a bank is served, where a terminal has shown its last amount.
abbrev pub counter : Bank → Client → Counter
counter b c = record { bank = b; pre_amount = c.pre_amount }

-- The inputs with the answers to them.
abbrev pub script : List Input → List Bytes → List (Input × Option Bytes)
script [] answers = []
script (input ∷ inputs) [] = (input, none) ∷ script inputs []
script (input ∷ inputs) (text ∷ answers) = (input, some text) ∷ script inputs answers

-- The buffers of the terminal, as the server's `recv` stores them.
abbrev pub all_received : List Bytes → List Recv
all_received [] = []
all_received (buf ∷ buffers) = received buf ∷ all_received buffers

module _ (machine server : Machine) (sgx : Sgx) (laws : SgxLaws sgx) where
  deal-sign_in :
      (c : Client) (b : Bank) (w : World) (name password : Bytes)
      → Inv sgx b w
      → IsSized c
      → Manages sgx c.send_info b (sign_in name password)
      → Deals machine server sgx laws c w
          (sign_in name password)
          (teller (record { bank = b; pre_amount = c.pre_amount }) (sign_in name password))
  unfolding teller written
  deal-sign_in c b w name password v size ((n, p, short, brief), small, fits, clean) =
      let (d, e, notices, text, i, a, w', prepared, handled, shown, used, named, is, inv) =
        sign_in-Shown machine server sgx laws c b w name password v small n p short brief
          size.info_size size.data_size clean fits in
      let (b', r) = log_in b name password in
      let same : d ≡ signed_in c name password =
        send-same c d (signed_in c name password) (sign_in name password) false false prepared
          (prepare-sign_in c name password size.info_size short brief) in
      let (kept, pre) = on_reply-Kept machine false text d e notices shown in
      let told : notices ≡ greeting r (balance_in_use b') =
        Shown-greeting r a.deposits e notices is
        ∙ ap (greeting r) (sym (balance_in_use-some b' i a used)) in
      record {
        sent = d;
        expects = false;
        text = text;
        after = w';
        next = e;
        prepared = prepared;
        info_is = kept.info ∙ ap (λ (x : Client). x.send_info) same;
        handled = handled;
        shown = shown ∙ ap (λ s. some (e, s)) told;
        pre_is = pre refl ∙ ap (λ (x : Client). x.pre_amount) same;
        inv = inv;
        sized = record {
          info_size =
              ap length (kept.info ∙ ap (λ (x : Client). x.send_info) same)
              ∙ length-signed_in c name password size.info_size short brief;
          data_size = kept.size ∙ ap (λ (x : Client). length x.receive_data) same ∙ size.data_size;
        };
      }

  -- What both programs do together over a visit.
  pub record Visits (c : Client) (w : World) (inputs : List Input) (p : Counter × List Notice)
      : Type 0 where
    pub buffers : List Bytes
    pub answers : List Bytes
    pub left : World
    pub conversed : converse machine (script inputs answers) c ≡ some (buffers, p.1)
    pub received_all : reception server sgx (all_received buffers) w ≡ (ok (answers, false), left)
    pub inv : Inv sgx (let k = p.0 in k.bank) left

  -- One input, and the visit from there on.
  visit :
      (c : Client) (w : World) (input : Input) (inputs : List Input) (p : Counter × List Notice)
      (q : Counter × List Notice)
      → (d : Deals machine server sgx laws c w input p) → Visits d.next d.after inputs q
      → Visits c w (input ∷ inputs) (q.0, p.1 ++ q.1)
  unfolding converse reception
  visit c w input inputs p q d v =
      let prepared = d.prepared in
      let shown = d.shown in
      let handled = d.handled in
      let conversed = v.conversed in
      let received_all = v.received_all in
      let sent = d.sent in
      record {
        buffers = sent.send_info ∷ v.buffers;
        answers = d.text ∷ v.answers;
        left = v.left;
        conversed = ground (arith, prepared, shown, conversed);
        received_all = ground (arith, handled, received_all);
        inv = v.inv;
      }

  visit-nothing :
      (c : Client) (b : Bank) (w : World) (inputs : List Input)
      → Inv sgx b w
      → converse machine (script inputs []) c ≡ some ([], [])
      → Visits c w inputs (record { bank = b; pre_amount = c.pre_amount }, [])
  unfolding reception
  visit-nothing c b w inputs v e = record {
    buffers = [];
    answers = [];
    left = w;
    conversed = e;
    received_all = refl;
    inv = v;
  }

  finish-nothing :
      (c : Client) (inputs : List Input)
      → converse machine (script (finish ∷ inputs) []) c ≡ some ([], [])
  unfolding converse prepare
  finish-nothing c inputs = refl

  converse-nothing : (c : Client) → converse machine [] c ≡ some ([], [])
  unfolding converse
  converse-nothing c = refl

  -- A visit from a terminal and a bank.
  abbrev VisitsFrom : List Input → Client → Bank → World → Type 0
  VisitsFrom inputs c b w =
      Inv sgx b w
      → IsSized c
      → ManagesAll sgx c.send_info (counter b c) inputs
      → Visits c w inputs (teller_all (counter b c) inputs)

  visit-further :
      (c : Client) (b : Bank) (w : World) (input : Input) (inputs : List Input)
      → (let p = teller (counter b c) input in
          (d : Deals machine server sgx laws c w input p)
          → VisitsFrom inputs d.next (let k = p.0 in k.bank) d.after
          → ManagesAll sgx (written input c.send_info) p.0 inputs
          → Visits c w
              (input ∷ inputs)
              ((teller_all p.0 inputs).0, p.1 ++ (teller_all p.0 inputs).1))
  visit-further c b w input inputs d rest h =
      let p = teller (counter b c) input in
      let k = p.0 in
      let same : counter k.bank d.next ≡ k =
        ap (λ (n : ℕ). (record { bank = k.bank; pre_amount = n })) d.pre_is in
      let managed =
        subst (λ (x : Counter). ManagesAll sgx d.next.send_info x inputs) (sym same)
          (subst (λ (s : Bytes). ManagesAll sgx s k inputs) (sym d.info_is) h) in
      visit c w input inputs p (teller_all k inputs) d (
        subst (λ (x : Counter). Visits d.next d.after inputs (teller_all x inputs)) same
          (rest d.inv d.sized managed))

  -- A visit of customers to the terminal, of any length: logins, deposits and withdrawals, up to
  -- the end of the inputs or to the one that leaves the terminal. The terminal's loop sends a
  -- buffer for each input, the server's reception, given these buffers, answers each of them, and
  -- the terminal, given the answers, shows what `teller_all` promises of a bank and of the amount
  -- that was shown last. The server's state stands for that bank afterwards, with the file up to
  -- date. Names, passwords and amounts, the balances on the way, the size of the file and the
  -- commas left in the terminal's buffer are bounded as `ManagesAll` says, and the buffers have
  -- their size.
  pub visit-shown :
      (inputs : List Input) (c : Client) (b : Bank) (w : World)
      → Inv sgx b w
      → IsSized c
      → ManagesAll sgx c.send_info (counter b c) inputs
      → Visits c w inputs (teller_all (counter b c) inputs)
  unfolding teller_all
  visit-shown [] c b w v size h = visit-nothing c b w [] v (converse-nothing c)
  visit-shown (finish ∷ inputs) c b w v size h =
      visit-nothing c b w (finish ∷ inputs) v (finish-nothing c inputs)
  visit-shown (other ∷ inputs) c b w v size h = absurd h.0
  visit-shown (sign_in name password ∷ inputs) c b w v size h =
      visit-further c b w (sign_in name password) inputs
        (deal-sign_in c b w name password v size h.0) (visit-shown inputs _ _ _) h.1
  visit-shown (pay_in amount ∷ inputs) c b w v size h =
      visit-further c b w (pay_in amount) inputs
        (deal-pay_in machine server sgx laws c b w amount v size h.0) (visit-shown inputs _ _ _) h.1
  visit-shown (take_out amount ∷ inputs) c b w v size h =
      visit-further c b w (take_out amount) inputs
        (deal-take_out machine server sgx laws c b w amount v size h.0) (visit-shown inputs _ _ _)
        h.1
