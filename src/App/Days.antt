-- ===== src/App/Days.antt =====
-- Day after day: each day the application and a terminal start anew, on the file that the day before
-- has left.
use seccap_sgx_bank.Base.{◌≡◌, refl, true, none, some, List, [], ◌∷◌, Bytes}
use seccap_sgx_bank.Bank.{Bank}
use seccap_sgx_bank.Sgx.{Sgx, SgxLaws}
use seccap_sgx_bank.World.{World, Io, ok}
use seccap_sgx_bank.Enclave.Inv.{Inv}
use seccap_sgx_bank.Enclave.Restart.{IsServing, closed}
use seccap_sgx_bank.Server.{Machine}
use seccap_sgx_bank.Launch.{Platform, initialize_enclave}
use seccap_sgx_bank.Client.{Input, Notice, start, converse}
use seccap_sgx_bank.Client.Teller.{teller_all, ManagesAll}
use seccap_sgx_bank.Client.Visit.{script, all_received, counter}
use seccap_sgx_bank.App.{Network, waiting, port_of, main}
use seccap_sgx_bank.App.Visit.{main-visit}

-- A new process on the file that the last one left.
abbrev pub restarted : Io → World → World
restarted io w = record {
  heap = [];
  deal_manager = none;
  file = w.file;
  io = io;
  draws = w.draws;
  console = [];
}

module _ (machine server : Machine) (sgx : Sgx) (platform : Platform) (laws : SgxLaws sgx)
    (network : Network) (arg : Bytes) (io : Io) where
  -- What the bank of the first day promises over the days: nobody is served in the morning.
  unfoldable pub teller_days : Bank → List (List Input) → Bank × List (List Notice)
  teller_days b [] = (b, [])
  teller_days b (inputs ∷ days) =
      let (k, notices) = teller_all (counter (closed sgx laws b) (start machine)) inputs in
      let (b', more) = teller_days k.bank days in (b', notices ∷ more)

  -- The inputs of each day are bounded, as those of a visit.
  abbrev pub ManagesDays : Bank → List (List Input) → Type 0
  ManagesDays b [] = Unit
  ManagesDays b (inputs ∷ days) =
      let c = start machine in
      ManagesAll sgx c.send_info (counter (closed sgx laws b) c) inputs
      × ManagesDays (let (k, notices) = teller_all (counter (closed sgx laws b) c) inputs in k.bank)
          days

  -- The days that both programs run, from the world in which they are started to the one that they
  -- leave, with what the terminal shows on each day.
  pub data Days : World → List (List Input) → List (List Notice) → World → Type 0 where
    over : (w : World) → Days w [] [] w
    day :
        (w w' left : World) (inputs : List Input) (days : List (List Input)) (notices : List Notice)
        (more : List (List Notice)) (buffers answers : List Bytes)
        → converse machine (script inputs answers) (start machine) ≡ some (buffers, notices)
        → main server sgx platform network (some arg) (all_received buffers) (restarted io w) ≡ (
          ok (record {
            messages = (initialize_enclave platform).1;
            port = some (port_of server arg);
            sent = answers;
            exit = waiting;
          }),
          left,
        )
        → Days left days more w'
        → Days w (inputs ∷ days) (notices ∷ more) w'

  -- Any number of days, each with a visit of any length: the application and a terminal start anew
  -- every morning, on the file that the day before has left, and the terminal shows over the days
  -- what `teller_days` promises of the bank of the first one, whose balances thus pass from day to
  -- day; in the end the file holds the bank of `teller_days`. On each day the host lets the file be
  -- read and written, the enclave starts, and the inputs are bounded as `ManagesAll` says.
  pub teller_days-Days :
      (days : List (List Input)) (b : Bank) (w : World)
      → Inv sgx b w
      → ((w : World) → IsServing (restarted io w))
      → (initialize_enclave platform).0 ≡ true
      → ManagesDays b days
      → (w' : World) × Days w days (teller_days b days).1 w' × Inv sgx (teller_days b days).0 w'
  unfolding teller_days
  teller_days-Days [] b w v serving started h = (w, over w, v)
  teller_days-Days (inputs ∷ days) b w v serving started (today, later) =
      let (buffers, answers, left, shown, run, inv) =
        main-visit machine server sgx platform laws network arg inputs b w (restarted io w) v refl
          (serving w) started today in
      let (k, notices) = teller_all (counter (closed sgx laws b) (start machine)) inputs in
      let (w', rest, kept) = teller_days-Days days k.bank left inv serving started later in
      (w', day w w' left inputs days notices _ buffers answers shown run rest, kept)
