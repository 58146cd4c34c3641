-- ===== src/App/Visit.antt =====
-- Both programs from their start: `main` of Seccap_client/client.cpp and `main` of App/App.cpp.
use seccap_sgx_bank.Base.{◌≡◌, true, false, some, List, Bytes}
use seccap_sgx_bank.Bank.{Bank}
use seccap_sgx_bank.Sgx.{Sgx, SgxLaws}
use seccap_sgx_bank.World.{World, ok}
use seccap_sgx_bank.Enclave.Inv.{Inv}
use seccap_sgx_bank.Enclave.Restart.{IsServing, closed}
use seccap_sgx_bank.Server.{Machine}
use seccap_sgx_bank.Launch.{Platform, initialize_enclave}
use seccap_sgx_bank.Client.{Input, start, converse}
use seccap_sgx_bank.Client.Teller.{teller_all, ManagesAll}
use seccap_sgx_bank.Client.Deal.{IsSized}
use seccap_sgx_bank.Client.Visit.{script, all_received, counter, visit-shown}
use seccap_sgx_bank.App.{Network, waiting, port_of, main}
use seccap_sgx_bank.App.Run.{main-reception}

start-IsSized : (machine : Machine) → IsSized (start machine)
unfolding start
start-IsSized machine = record {
  info_size = machine.length-garbage 1024;
  data_size = machine.length-garbage 1024;
}

module _ (machine server : Machine) (sgx : Sgx) (platform : Platform) (laws : SgxLaws sgx) where
  -- The application from its start, and a terminal from its own: on the file of a state that stood
  -- for a bank, the terminal's loop, over a visit of any length, sends buffers that the run of the
  -- application answers one by one, and shows what `teller_all` promises of that bank, with nobody
  -- served at first. However the sockets behave, the application has then written exactly these
  -- answers, stands for the bank of `teller_all`, with the file up to date, and waits for more, also
  -- where the visit has been finished at the terminal. The enclave starts, the host lets the file be
  -- read and written, and the inputs are bounded as `ManagesAll` says.
  pub main-visit :
      (network : Network) (arg : Bytes) (inputs : List Input) (b : Bank) (w w₀ : World)
      → Inv sgx b w
      → w₀.file ≡ w.file
      → IsServing w₀
      → (initialize_enclave platform).0 ≡ true
      → ManagesAll sgx
          (let c = start machine in c.send_info)
          (counter (closed sgx laws b) (start machine))
          inputs
      → let (k, notices) = teller_all (counter (closed sgx laws b) (start machine)) inputs in
        (buffers : List Bytes) × (answers : List Bytes) × (w' : World) × (converse machine
            (script inputs answers)
            (start machine)
          ≡ some (buffers, notices))
        × (main server sgx platform network (some arg) (all_received buffers) w₀ ≡ (
          ok (record {
            messages = (initialize_enclave platform).1;
            port = some (port_of server arg);
            sent = answers;
            exit = waiting;
          }),
          w',
        ))
        × Inv sgx k.bank w'
  main-visit network arg inputs b w w₀ v file s started managed =
      let (w₁, inv, runs) =
        main-reception server sgx platform laws network arg b w w₀ v file s started in
      let visit =
        visit-shown machine server sgx laws inputs (start machine) (closed sgx laws b) w₁ inv
          (start-IsSized machine) managed in
      let (w', run, kept) =
        runs (all_received visit.buffers) (ok (visit.answers, false), _)
          (visit.left, visit.received_all, visit.inv) in
      (visit.buffers, visit.answers, w', visit.conversed, run, kept)
