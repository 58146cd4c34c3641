-- ===== src/App/Run.antt =====
-- A whole run of the application against the bank.
use seccap_sgx_bank.Base.{ℕ, ◌≡◌, Bool, true, false, some, List, [], ◌∷◌, ◌++◌, arith, Bytes}
use seccap_sgx_bank.Bank.{Bank}
use seccap_sgx_bank.Sgx.{Sgx, SgxLaws}
use seccap_sgx_bank.World.{World, Line, ok, stop, enclave_destroyed}
use seccap_sgx_bank.Enclave.Inv.{Inv, Inv-console}
use seccap_sgx_bank.Enclave.Restart.{IsServing, closed, ecall_init_manager-Inv}
use seccap_sgx_bank.DealManager.Parse.{IsField}
use seccap_sgx_bank.Server.Sequence.{respond_all-end}
use seccap_sgx_bank.Server.{Machine, Recv, received, codes, reception}
use seccap_sgx_bank.Server.Respond.{Response, respond_all}
use seccap_sgx_bank.Server.Perform.{Gives}
use seccap_sgx_bank.Server.Refinement.{FitsThrough, reception-respond_all}
use seccap_sgx_bank.Launch.{Platform, Message, initialize_enclave}
use seccap_sgx_bank.App.{
  Network, Session, exit_zero, waiting, port_of, prepare_communication, serve, main,
}

-- The session that a response leads to: it is left with 0 exactly when it has been ended.
abbrev pub session : List Message → ℕ → Response (List Bytes × Bool) → Response Session
session messages port (stop s, b) = (stop s, b)
session messages port (ok (sent, ended), b) = (
  ok (record {
    messages = messages;
    port = some port;
    sent = sent;
    exit = elim ended [ true ↦ exit_zero | false ↦ waiting ];
  }),
  b,
)

module _ (machine : Machine) (sgx : Sgx) (platform : Platform) where
  -- Preparing the sockets prints, and changes nothing else.
  prepare_communication-console :
      (network : Network) (arg : Bytes) (w : World)
      → (lines : List Line) × (prepare_communication machine network (some arg) w
          ≡ (ok (port_of machine arg), record w { console = lines }))
  unfolding prepare_communication
  prepare_communication-console network arg w =
      (let (r, w') = prepare_communication machine network (some arg) w in w'.console, ground arith)

  serve-session :
      (messages : List Message) (port : ℕ) (events : List Recv) (w : World)
      (p : Response (List Bytes × Bool))
      → Gives sgx (reception machine sgx events w) p
      → Gives sgx (serve machine sgx platform messages port events w) (session messages port p)
  unfolding serve
  serve-session messages port events w (stop s, b) (w', e, kept) = (w', ground (arith, e), tt)
  serve-session messages port events w (ok (sent, false), b) (w', e, kept) =
      (w', ground (arith, e), kept)
  serve-session messages port events w (ok (sent, true), b) (w', e, kept) = (
    record w' { console = w'.console ++ enclave_destroyed ∷ [] },
    ground (arith, e),
    Inv-console sgx b _ w' kept,
  )

  module _ (laws : SgxLaws sgx) where
    -- The state in which the reception begins, and what the run makes of the reception's end.
    pub main-reception :
        (network : Network) (arg : Bytes) (b : Bank) (w w₀ : World)
        → Inv sgx b w
        → w₀.file ≡ w.file
        → IsServing w₀
        → (initialize_enclave platform).0 ≡ true
        → (w₁ : World) × Inv sgx (closed sgx laws b) w₁
          × ((events : List Recv) (p : Response (List Bytes × Bool))
              → Gives sgx (reception machine sgx events w₁) p
              → Gives sgx
                  (main machine sgx platform network (some arg) events w₀)
                  (session ((initialize_enclave platform).1) (port_of machine arg) p))
    unfolding main
    main-reception network arg b w w₀ v file s started =
        let messages = (initialize_enclave platform).1 in
        let (w₁, run, inv) = ecall_init_manager-Inv sgx laws b w w₀ v file s in
        let (lines, prepared) = prepare_communication-console network arg w₁ in
        let w₂ = record w₁ { console = lines } in
        (
          w₂,
          Inv-console sgx _ lines w₁ inv,
          λ events p received.
              (let (w₃, served, kept) =
                  serve-session messages (port_of machine arg) events w₂ p received in
                (w₃, ground (arith, run, prepared, served), kept)),
        )

    -- A run of the application that starts its enclave, and finds the file of any state that stood
    -- for a bank, serves that bank from a fresh session on: it writes what `respond_all` says, stops
    -- with the fault that it says, and is left with 0 exactly when the session has been ended. This
    -- holds however the sockets behave and whatever is received, where the host lets the file be
    -- read and written and the accounts fit 16 bits, also when sealed, after each message.
    pub main-respond_all :
        (network : Network) (arg : Bytes) (events : List Recv) (b : Bank) (w w₀ : World)
        → Inv sgx b w
        → w₀.file ≡ w.file
        → IsServing w₀
        → (initialize_enclave platform).0 ≡ true
        → FitsThrough sgx machine laws (closed sgx laws b) events
        → Gives sgx (main machine sgx platform network (some arg) events w₀) (
            session
              ((initialize_enclave platform).1)
              (port_of machine arg)
              (respond_all machine (closed sgx laws b) events))
    main-respond_all network arg events b w w₀ v file s started fits =
        let (w₁, inv, runs) = main-reception network arg b w w₀ v file s started in
        runs events (respond_all machine (closed sgx laws b) events)
          (reception-respond_all sgx machine laws events (closed sgx laws b) w₁ inv fits)

    -- A run that starts its enclave, finds the file of a state that stood for a bank, and answers
    -- some events without a fault and without being ended, is left with 0 when the next message is
    -- "end,", whatever stands behind its comma, if that holds no comma; it has then written exactly
    -- those answers, and the file holds the bank that they led to. The host lets the file be read
    -- and written, and the accounts fit 16 bits, also when sealed, after each message.
    pub main-end :
        (network : Network) (arg tail : Bytes) (events : List Recv) (sent : List Bytes)
        (b b' : Bank) (w w₀ : World)
        → Inv sgx b w
        → w₀.file ≡ w.file
        → IsServing w₀
        → (initialize_enclave platform).0 ≡ true
        → IsField tail
        → respond_all machine (closed sgx laws b) events ≡ (ok (sent, false), b')
        → FitsThrough sgx machine laws
            (closed sgx laws b)
            (events ++ received (codes "end," ++ tail) ∷ [])
        → (w' : World) × (main machine sgx platform network
              (some arg)
              (events ++ received (codes "end," ++ tail) ∷ [])
              w₀
            ≡ (
              ok (record {
                messages = (initialize_enclave platform).1;
                port = some (port_of machine arg);
                sent = sent;
                exit = exit_zero;
              }),
              w',
            ))
          × Inv sgx b' w'
    main-end network arg tail events sent b b' w w₀ v file s started t answered fits =
        let whole = respond_all-end machine events tail sent (closed sgx laws b) b' t answered in
        let p =
          main-respond_all network arg (events ++ received (codes "end," ++ tail) ∷ []) b w w₀ v
            file s started fits in
        rw whole at p
