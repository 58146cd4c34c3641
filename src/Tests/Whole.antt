-- ===== src/Tests/Whole.antt =====
-- Witnesses of the theorems on sessions, on whole runs, and on the terminal and the server together.
use seccap_sgx_bank.Tests.{toy_sgx, toy_laws, toy_machine, empty_world, empty_bank, empty_Inv}
use seccap_sgx_bank.Tests.Requests.{bank, funded, bank-Fits, a-IsCredential, p-IsCredential}
use seccap_sgx_bank.Tests.Session.{toy_platform}
use seccap_sgx_bank.Base.{
  ◌+◌, ◌≡◌, refl, true, false, some, none, List, [], ◌∷◌, inl, length, if◌then◌else◌, leb, arith,
}
use seccap_sgx_bank.CLib.{c_str, atoi, print_ld, strncmp_eq}
use seccap_sgx_bank.Bank.{credit, debit}
use seccap_sgx_bank.World.{World, ok}
use seccap_sgx_bank.Bank.{
  Bank, Request, Answer, in_use, apply, log_in, position, new_account, my_deposit, my_withdraw,
  serve,
}
use seccap_sgx_bank.Bank.Sound.{IsSound}
use seccap_sgx_bank.Bank.View.{Ledger, Sees, find_in}
use seccap_sgx_bank.Bank.Total.{total, paid_in, paid_out, all_paid_in, all_paid_out}
use seccap_sgx_bank.Enclave.Inv.{Inv}
use seccap_sgx_bank.Enclave.Books.{serve_all_ledger, call_all-serve_all_ledger, call_all-total}
use seccap_sgx_bank.Enclave.Refinement.{call_all, Affords}
use seccap_sgx_bank.Enclave.Restart.{closed, IsServing}
use seccap_sgx_bank.Server.{codes, received, failed, receive_buf, reception, handle, split}
use seccap_sgx_bank.Server
use seccap_sgx_bank.Server.Cut.{cut, split-cut}
use seccap_sgx_bank.Server.Respond.{respond, respond_all, perform, on_deposit, tell, printed}
use seccap_sgx_bank.Server.Perform.{Gives}
use seccap_sgx_bank.Server.Refinement.{FitsThrough, reception-respond_all}
use seccap_sgx_bank.Launch.{initialize_enclave}
use seccap_sgx_bank.App.{Network, exit_zero, port_of, main}
use seccap_sgx_bank.App.Run.{session, main-respond_all, main-end}

pub toy_platform-starts : (initialize_enclave toy_platform).0 ≡ true
unfolding initialize_enclave
toy_platform-starts = refl

abbrev pub events : List Server.Recv
events = received (codes "deposit,50,") ∷ failed ∷ received (codes "end,") ∷ []

events-FitsThrough : FitsThrough toy_sgx toy_machine toy_laws (bank 100) events
unfolding respond_all respond perform cut on_deposit tell printed apply in_use credit atoi c_str
    strncmp_eq receive_buf print_ld
events-FitsThrough = (bank-Fits 150, (bank-Fits 150, tt))

reception-respond_all_example :
    Gives toy_sgx
      (reception toy_machine toy_sgx events (funded.0))
      (respond_all toy_machine (bank 100) events)
reception-respond_all_example =
    reception-respond_all toy_sgx toy_machine toy_laws events (bank 100) (funded.0) (funded.1)
      events-FitsThrough

-- A new run of the enclave on the file that the last one left.
abbrev pub again : World
again = record empty_world { deal_manager = none; file = (let w = funded.0 in w.file) }

pub again-IsServing : IsServing again
again-IsServing = record {
  readable = record { can_read = refl; can_seek = refl };
  can_write = refl;
  write_succeeds = refl;
  close_succeeds = refl;
}

-- A network on which the port is taken.
abbrev pub network : Network
network = record { socket_ok = true; bind_ok = false; listen_ok = true; accept_ok = true }

closed-FitsThrough :
    FitsThrough toy_sgx toy_machine toy_laws (closed toy_sgx toy_laws (bank 100)) (events)
unfolding respond_all respond perform cut on_deposit tell printed apply in_use credit atoi c_str
    strncmp_eq receive_buf print_ld
closed-FitsThrough = (bank-Fits 100, (bank-Fits 100, tt))

main-respond_all_example :
    Gives toy_sgx (main toy_machine toy_sgx toy_platform network (some (codes "3")) events again) (
      session
        ((initialize_enclave toy_platform).1)
        (port_of toy_machine (codes "3"))
        (respond_all toy_machine (closed toy_sgx toy_laws (bank 100)) events))
main-respond_all_example =
    main-respond_all toy_machine toy_sgx toy_platform toy_laws network (codes "3") events (bank 100)
      (funded.0) again (funded.1) refl again-IsServing toy_platform-starts closed-FitsThrough

main-end_example :
    (w' : World) × (main toy_machine toy_sgx toy_platform network
        (some (codes "3"))
        (received (codes "deposit,50,") ∷ received (codes "end,") ∷ [])
        again
      ≡ (
        ok (record {
          messages = (initialize_enclave toy_platform).1;
          port = some (port_of toy_machine (codes "3"));
          sent = (b'2' ∷ 0 ∷ 0 ∷ 0 ∷ 0 ∷ 0 ∷ 0 ∷ 0 ∷ []) ∷ [];
          exit = exit_zero;
        }),
        w',
      ))
    × Inv toy_sgx (closed toy_sgx toy_laws (bank 100)) w'
unfolding respond_all respond perform cut on_deposit tell printed apply in_use credit atoi c_str
    strncmp_eq receive_buf print_ld
main-end_example =
    main-end toy_machine toy_sgx toy_platform toy_laws network (codes "3") []
      (received (codes "deposit,50,") ∷ []) ((b'2' ∷ 0 ∷ 0 ∷ 0 ∷ 0 ∷ 0 ∷ 0 ∷ 0 ∷ []) ∷ [])
      (bank 100) (closed toy_sgx toy_laws (bank 100)) (funded.0) again (funded.1) refl
      again-IsServing toy_platform-starts tt refl (bank-Fits 100, (bank-Fits 100, tt))

split-cut_example : split (codes "deposit,50,") ≡ (
    let (fields, tail) = cut (codes "deposit,50,") in
    if leb (length fields) 3 then some fields else none)
split-cut_example = split-cut (codes "deposit,50,")

-- A ledger of nobody.
abbrev nobody : Ledger
nobody = record { find = λ name. none; used = none }

empty-Sees : Sees nobody empty_bank
unfolding find_in in_use
empty-Sees = record { finds = λ name. refl; uses = refl }

empty-IsSound : IsSound empty_bank
empty-IsSound = record { names = tt; balances = tt; used = inl refl }

-- A customer comes, pays in and takes out.
abbrev requests : List Request
requests = new_account (b'a' ∷ []) (b'p' ∷ []) ∷ my_deposit 100 ∷ my_withdraw 40 ∷ []

requests-Affords : Affords toy_sgx empty_bank requests
unfolding serve log_in position apply in_use credit debit
requests-Affords = (
  (a-IsCredential, p-IsCredential),
  bank-Fits 0,
  (omega arith, bank-Fits 100, (omega arith, bank-Fits 60, tt)),
)

call_all-serve_all_ledger_example :
    let (l', answers) = serve_all_ledger nobody requests in
    (b' : Bank) × (w' : World) × (call_all toy_sgx requests empty_world ≡ (ok answers, w'))
    × Inv toy_sgx b' w'
    × Sees l' b'
    × IsSound b'
call_all-serve_all_ledger_example =
    call_all-serve_all_ledger toy_sgx toy_laws requests nobody empty_bank empty_world empty_Inv
      empty-Sees empty-IsSound requests-Affords

call_all-total_example :
    (b' : Bank) × (answers : List Answer) × (w' : World) × (call_all toy_sgx requests empty_world
      ≡ (ok answers, w'))
    × Inv toy_sgx b' w'
    × IsSound b'
    × (total b'.accounts + 40 ≡ 100)
unfolding all_paid_in all_paid_out paid_in paid_out serve log_in position apply in_use credit debit
call_all-total_example =
    call_all-total toy_sgx toy_laws requests empty_bank empty_world empty_Inv empty-IsSound
      requests-Affords
