-- ===== src/Server/Sequence.antt =====
-- Sessions in sequence, and the message that ends one.
use seccap_sgx_bank.Base.{
  ℕ, zero, suc, ◌≡◌, ◌≢◌, refl, ap, ◌∙◌, Bool, true, false, List, [], ◌∷◌, ◌++◌, take, replicate,
  All-append, append-nil, arith, Bytes,
}
use mathlib.Core.Path.{fun_ext}
use seccap_sgx_bank.CLib.{c_str}
use seccap_sgx_bank.Bank.{Bank}
use seccap_sgx_bank.DealManager.Parse.{IsField}
use seccap_sgx_bank.World.{ok, stop}
use seccap_sgx_bank.Server.{
  Machine, Outcome, reply, server_end, Recv, closed, failed, received, codes, receive_buf,
}
use seccap_sgx_bank.Server.Cut.{cut}
use seccap_sgx_bank.Server.Respond.{Response, respond, respond_all, perform, go_on, answer_first}

abbrev pub prefixed : List Bytes → Response (List Bytes × Bool) → Response (List Bytes × Bool)
prefixed texts (stop s, b) = (stop s, b)
prefixed texts (ok (more, ended), b) = (ok (texts ++ more, ended), b)

-- A session that was answered up to here goes on.
abbrev pub then_on :
    Response (List Bytes × Bool)
    → (Bank → Response (List Bytes × Bool))
    → Response (List Bytes × Bool)
then_on (stop s, b) rest = (stop s, b)
then_on (ok (texts, true), b) rest = (ok (texts, true), b)
then_on (ok (texts, false), b) rest = prefixed texts (rest b)

answer_first-prefixed :
    (text : Bytes) (texts : List Bytes) (p : Response (List Bytes × Bool))
    → answer_first text (prefixed texts p) ≡ prefixed (text ∷ texts) p
answer_first-prefixed text texts (stop s, b) = refl
answer_first-prefixed text texts (ok (more, ended), b) = refl

answer_first-then_on :
    (text : Bytes) (p : Response (List Bytes × Bool)) (rest : Bank → Response (List Bytes × Bool))
    → answer_first text (then_on p rest) ≡ then_on (answer_first text p) rest
answer_first-then_on text (stop s, b) rest = refl
answer_first-then_on text (ok (texts, true), b) rest = refl
answer_first-then_on text (ok (texts, false), b) rest = answer_first-prefixed text texts (rest b)

go_on-then_on :
    (p : Response Outcome) (k rest : Bank → Response (List Bytes × Bool))
    → go_on p (λ b. then_on (k b) rest) ≡ then_on (go_on p k) rest
go_on-then_on (stop s, b) k rest = refl
go_on-then_on (ok server_end, b) k rest = refl
go_on-then_on (ok (reply text), b) k rest = answer_first-then_on text (k b) rest

prefixed-nil : (p : Response (List Bytes × Bool)) → p ≡ prefixed [] p
prefixed-nil (stop s, b) = refl
prefixed-nil (ok (more, ended), b) = refl

take-IsField : (n : ℕ) (s : Bytes) → IsField s → IsField (take n s)
take-IsField zero s h = tt
take-IsField (suc n) [] h = tt
take-IsField (suc n) (c ∷ s) h = (h.0, take-IsField n s h.1)

replicate-IsField : (n : ℕ) → IsField (replicate n 0)
replicate-IsField zero = tt
replicate-IsField (suc n) = (omega arith, replicate-IsField n)

cut-IsField : (s : Bytes) → IsField s → cut s ≡ ([], s)
unfolding cut
cut-IsField [] h = refl
cut-IsField (c ∷ s) h = ground (arith, cut-IsField s h.1)

cut-end : (rest : Bytes) → IsField rest → cut (codes "end," ++ rest) ≡ (codes "end" ∷ [], rest)
unfolding cut
cut-end rest h = rw (cut-IsField rest h)

module _ (machine : Machine) where
  -- The answers to two sequences of events are those to the first and, if it has neither stopped
  -- nor been ended, those to the second from the bank that was reached.
  pub respond_all-append :
      (events more : List Recv) (b : Bank)
      → respond_all machine b (events ++ more)
        ≡ then_on (respond_all machine b events) (λ b'. respond_all machine b' more)
  unfolding respond_all
  respond_all-append [] more b = prefixed-nil (respond_all machine b more)
  respond_all-append (closed ∷ events) more b = respond_all-append events more b
  respond_all-append (failed ∷ events) more b = respond_all-append events more b
  respond_all-append (received bytes ∷ events) more b =
      ap (go_on (respond machine b (receive_buf bytes)))
        (fun_ext (λ b'. respond_all-append events more b'))
      ∙ go_on-then_on (respond machine b (receive_buf bytes)) (λ b'. respond_all machine b' events)
          (λ b'. respond_all machine b' more)

  respond-cut_end :
      (b : Bank) (rest : Bytes)
      → IsField rest
      → respond machine b (codes "end," ++ rest) ≡ (ok server_end, b)
  unfolding respond perform c_str
  respond-cut_end b rest h = rw (cut-end rest h)

  -- "end," ends a session, whatever stands behind it, if it holds no comma.
  pub respond-end :
      (b : Bank) (tail : Bytes)
      → IsField tail
      → respond machine b (receive_buf (codes "end," ++ tail)) ≡ (ok server_end, b)
  unfolding receive_buf
  respond-end b tail h = respond-cut_end b (take 1020 (tail ++ replicate 1024 0)) (
      take-IsField 1020 (tail ++ replicate 1024 0)
        (All-append (λ c. c ≢ b',') tail (replicate 1024 0) h (replicate-IsField 1024)))

  -- A session that was answered without a fault and has not been ended ends with the next "end,".
  pub respond_all-end :
      (events : List Recv) (tail : Bytes) (sent : List Bytes) (b b' : Bank)
      → IsField tail
      → respond_all machine b events ≡ (ok (sent, false), b')
      → respond_all machine b (events ++ received (codes "end," ++ tail) ∷ [])
        ≡ (ok (sent, true), b')
  unfolding respond_all
  respond_all-end events tail sent b b' t answered =
      let last = received (codes "end," ++ tail) ∷ [] in
      respond_all-append events last b
      ∙ ap (λ p. then_on p (λ x. respond_all machine x last)) answered
      ∙ ap (λ p. prefixed sent (go_on p (λ x. respond_all machine x []))) (respond-end b' tail t)
      ∙ ap (λ texts. (ok (texts, true), b')) (append-nil sent)
