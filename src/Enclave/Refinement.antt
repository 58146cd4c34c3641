-- ===== src/Enclave/Refinement.antt =====
-- The enclave as a whole against the bank of Bank.antt: any sequence of requests.
use seccap_sgx_bank.Base.{◌<◌, ◌≡◌, refl, some, List, [], ◌∷◌, arith}
use seccap_sgx_bank.CLib.{u64_mod}
use seccap_sgx_bank.Bank.{
  Bank, Request, Answer, new_account, my_deposit, my_withdraw, result, balance, serve, serve_all,
}
use seccap_sgx_bank.Sgx.{Sgx, SgxLaws}
use seccap_sgx_bank.World.{World, M, ok, ◌>>=◌, pure}
use seccap_sgx_bank.Enclave.{ecall_new_account, ecall_my_deposit, ecall_my_withdraw}
use seccap_sgx_bank.Enclave.Inv.{Inv, Fits}
use seccap_sgx_bank.Enclave.Login.{IsCredential, ecall_new_account-log_in}
use seccap_sgx_bank.Enclave.Serve.{ecall_my_deposit-apply, ecall_my_withdraw-apply}

-- Names and passwords hold no NUL and no comma.
abbrev pub IsRequest : Request → Type 0
IsRequest (new_account name password) = IsCredential name × IsCredential password
IsRequest (my_deposit amount) = amount < u64_mod
IsRequest (my_withdraw amount) = amount < u64_mod

module _ (sgx : Sgx) where
  -- The ecall that a request leads to.
  unfoldable pub call : Request → M Answer
  call (new_account name password) = do
    r ← ecall_new_account sgx (some name) (some password)
    pure (result r)
  call (my_deposit amount) = do n ← ecall_my_deposit sgx amount; pure (balance n)
  call (my_withdraw amount) = do n ← ecall_my_withdraw sgx amount; pure (balance n)

  unfoldable pub call_all : List Request → M (List Answer)
  call_all [] = pure []
  call_all (r ∷ requests) = do a ← call r; answers ← call_all requests; pure (a ∷ answers)

  -- Every request is one that the application can make, and the accounts fit after each.
  abbrev pub Affords : Bank → List Request → Type 0
  Affords b [] = Unit
  Affords b (r ∷ requests) =
      IsRequest r
      × Fits sgx (let (b', a) = serve b r in b'.accounts)
      × Affords (let (b', a) = serve b r in b') requests

  module _ (laws : SgxLaws sgx) where
    -- One ecall on a state that stands for a bank does what the bank does.
    pub call-serve :
        (b : Bank) (r : Request) (w : World)
        → Inv sgx b w
        → IsRequest r
        → Fits sgx (let (b', a) = serve b r in b'.accounts)
        → let (b', a) = serve b r in (w' : World) × (call r w ≡ (ok a, w')) × Inv sgx b' w'
    unfolding call serve
    call-serve b (new_account name password) w v q f =
        let (w', run, inv) = ecall_new_account-log_in sgx laws b w name password v q.0 q.1 f in
        (w', ground (arith, run), inv)
    call-serve b (my_deposit amount) w v q f =
        let (w', run, inv) = ecall_my_deposit-apply sgx laws b w amount v in
        (w', ground (arith, run), inv)
    call-serve b (my_withdraw amount) w v q f =
        let (w', run, inv) = ecall_my_withdraw-apply sgx laws b w amount v in
        (w', ground (arith, run), inv)

    -- Any sequence of ecalls from a state that stands for a bank runs to its end without a fault,
    -- answers what the bank answers, and reaches a state that stands for the bank afterwards, with
    -- the file up to date. Every request must be one that the application can make (no NUL and no
    -- comma in names and passwords, amounts below 2 ^ 64), and the lines of the accounts must fit
    -- 16 bits, also when sealed, after each request.
    pub call_all-serve_all :
        (requests : List Request) (b : Bank) (w : World)
        → Inv sgx b w
        → Affords b requests
        → let (b', answers) = serve_all b requests in
          (w' : World) × (call_all requests w ≡ (ok answers, w')) × Inv sgx b' w'
    unfolding call_all serve_all
    call_all-serve_all [] b w v h = (w, refl, v)
    call_all-serve_all (r ∷ requests) b w v h =
        let (w₁, run, inv) = call-serve b r w v h.0 h.1 in
        let (w₂, rest, inv') = call_all-serve_all requests (serve b r).0 w₁ inv h.2 in
        (w₂, ground (arith, run, rest), inv')
