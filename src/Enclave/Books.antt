-- ===== src/Enclave/Books.antt =====
-- Sequences of ecalls against the ledger of Bank/View.antt and the money of Bank/Total.antt.
use seccap_sgx_bank.Base.{◌+◌, ◌≡◌, refl, sym, ap, ◌∙◌, List, [], ◌∷◌, arith}
use seccap_sgx_bank.Bank.{Bank, Request, Answer, serve, serve_all}
use seccap_sgx_bank.Bank.Sound.{IsSound, serve-IsSound}
use seccap_sgx_bank.Bank.View.{Ledger, Sees, serve_ledger}
use seccap_sgx_bank.Bank.View.Agrees.{serve-Agrees}
use seccap_sgx_bank.Bank.Total.{total, all_paid_in, all_paid_out, serve_all-total}
use seccap_sgx_bank.Sgx.{Sgx, SgxLaws}
use seccap_sgx_bank.World.{World, ok}
use seccap_sgx_bank.Enclave.Inv.{Inv}
use seccap_sgx_bank.Enclave.Refinement.{call_all, Affords, call_all-serve_all}

unfoldable pub serve_all_ledger : Ledger → List Request → Ledger × List Answer
unfolding serve_ledger
serve_all_ledger l [] = (l, [])
serve_all_ledger l (r ∷ requests) =
    let (l', a) = serve_ledger l r in
    let (l'', answers) = serve_all_ledger l' requests in (l'', a ∷ answers)

serve_all-IsSound :
    (b : Bank) (requests : List Request) → IsSound b → IsSound (serve_all b requests).0
unfolding serve_all
serve_all-IsSound b [] s = s
serve_all-IsSound b (r ∷ requests) s =
    serve_all-IsSound (serve b r).0 requests (serve-IsSound b r s)

serve_all_ledger-serve_all :
    (l : Ledger) (b : Bank) (requests : List Request)
    → Sees l b
    → IsSound b
    → ((serve_all_ledger l requests).1 ≡ (serve_all b requests).1)
      × Sees (serve_all_ledger l requests).0 (serve_all b requests).0
unfolding serve_all_ledger serve_all
serve_all_ledger-serve_all l b [] s sound = (refl, s)
serve_all_ledger-serve_all l b (r ∷ requests) s sound =
    let (same, seen) = serve-Agrees l b r s sound in
    let (rest, shows) =
      serve_all_ledger-serve_all (serve_ledger l r).0 (serve b r).0 requests seen
        (serve-IsSound b r sound) in
    (ground (arith, same, rest), shows)

module _ (sgx : Sgx) (laws : SgxLaws sgx) where
  -- Any sequence of ecalls answers what a map from names to accounts answers, and leads to a state
  -- that stands for a bank which that map shows: the order of the accounts, their addresses and
  -- their positions never matter. It starts from a state that stands for a sound bank and a ledger
  -- that shows it; the requests are ones that the application can make, and the accounts fit after
  -- each.
  pub call_all-serve_all_ledger :
      (requests : List Request) (l : Ledger) (b : Bank) (w : World)
      → Inv sgx b w
      → Sees l b
      → IsSound b
      → Affords sgx b requests
      → let (l', answers) = serve_all_ledger l requests in
        (b' : Bank) × (w' : World) × (call_all sgx requests w ≡ (ok answers, w'))
        × Inv sgx b' w'
        × Sees l' b'
        × IsSound b'
  call_all-serve_all_ledger requests l b w v s sound h =
      let (w', run, inv) = call_all-serve_all sgx laws requests b w v h in
      let (same, shows) = serve_all_ledger-serve_all l b requests s sound in
      (
        (serve_all b requests).0,
        w',
        run ∙ ap (λ answers. (ok answers, w')) (sym same),
        inv,
        shows,
        serve_all-IsSound b requests sound,
      )

  -- No money is made or lost by any sequence of ecalls: in the state that is reached, the balances
  -- and what the accepted withdrawals have taken out are together what the balances were and what
  -- the accepted deposits have brought in; names are still unique, and balances 64-bit numbers. The
  -- conditions are a state that stands for a sound bank, requests that the application can make,
  -- and accounts that fit after each.
  pub call_all-total :
      (requests : List Request) (b : Bank) (w : World)
      → Inv sgx b w
      → IsSound b
      → Affords sgx b requests
      → (b' : Bank) × (answers : List Answer) × (w' : World) × (call_all sgx requests w
          ≡ (ok answers, w'))
        × Inv sgx b' w'
        × IsSound b'
        × (total b'.accounts + all_paid_out b requests ≡ total b.accounts + all_paid_in b requests)
  call_all-total requests b w v sound h =
      let (w', run, inv) = call_all-serve_all sgx laws requests b w v h in
      (
        (serve_all b requests).0,
        (serve_all b requests).1,
        w',
        run,
        inv,
        serve_all-IsSound b requests sound,
        serve_all-total b requests sound,
      )
