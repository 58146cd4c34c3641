-- ===== src/Tests/Visits.antt =====
-- Witnesses of the theorems on visits to the terminal.
use seccap_sgx_bank.Tests.{
  willing, toy_sgx, toy_laws, toy_machine, empty_world, empty_bank, empty_Inv,
}
use seccap_sgx_bank.Tests.Requests.{bank, funded, bank-Fits, a-IsCredential, p-IsCredential}
use seccap_sgx_bank.Tests.Session.{terminal, zeros-IsField, toy_platform}
use seccap_sgx_bank.Tests.Deals.{zeros}
use seccap_sgx_bank.Tests.Whole.{again, again-IsServing, network, toy_platform-starts}
use seccap_sgx_bank.Base.{ℕ, ◌≡◌, refl, true, false, some, List, [], ◌∷◌, arith, Bytes}
use seccap_sgx_bank.CLib.{print_ld}
use seccap_sgx_bank.Account.{Account}
use seccap_sgx_bank.Bank.{credit, debit}
use seccap_sgx_bank.World.{World, ok, stop, out_of_bounds}
use seccap_sgx_bank.Bank.{log_in, position, in_use, apply}
use seccap_sgx_bank.Enclave.Inv.{Inv}
use seccap_sgx_bank.Enclave.Login.{IsCredential}
use seccap_sgx_bank.Enclave.Restart.{IsServing, closed}
use seccap_sgx_bank.Server.{reply, receive_buf, handle, codes}
use seccap_sgx_bank.Server.Cut.{commas}
use seccap_sgx_bank.Launch.{initialize_enclave}
use seccap_sgx_bank.Client.{
  Client, Input, sign_in, pay_in, take_out, finish, Notice, total, wrong_password, send, prepare,
  on_reply, converse, start,
}
use seccap_sgx_bank.Client.Welcome.{sign_in-Shown}
use seccap_sgx_bank.Client.Teller.{balance_in_use, teller, teller_all, written, ManagesAll}
use seccap_sgx_bank.Client.Deal.{IsSized}
use seccap_sgx_bank.Client.Stale.{prepare-pay_in}
use seccap_sgx_bank.Client.Leftover.{pay_in-thrice}
use seccap_sgx_bank.Client.Visit.{script, all_received, counter, Visits, visit-shown}
use seccap_sgx_bank.App.{main, waiting, port_of}
use seccap_sgx_bank.App.Visit.{main-visit}
use seccap_sgx_bank.App.Days.{restarted, teller_days, ManagesDays, Days, teller_days-Days}

q-IsCredential : IsCredential (b'q' ∷ [])
q-IsCredential = record { text = (omega arith, tt); field = (omega arith, tt) }

-- A wrong password.
sign_in-Shown_example :
    (d : Client) × (e : Client) × (notices : List Notice) × (text : Bytes) × (i : ℕ) × (a : Account)
    × (w : World) × (prepare (sign_in (b'a' ∷ []) (b'q' ∷ [])) terminal ≡ some (send d false))
    × (handle toy_machine toy_sgx (receive_buf d.send_info) (funded.0) ≡ (ok (reply text), w))
    × (on_reply toy_machine false text d ≡ some (e, notices))
    × (in_use (bank 100) ≡ some (i, a))
    × (a.name ≡ b'a' ∷ [])
    × ((notices ≡ total 0 ∷ wrong_password ∷ []) × (e.login ≡ false))
    × Inv toy_sgx (bank 100) w
unfolding log_in position in_use
sign_in-Shown_example =
    sign_in-Shown toy_machine toy_machine toy_sgx toy_laws terminal (bank 100) (funded.0)
      (b'a' ∷ []) (b'q' ∷ []) (funded.1) (omega arith, tt) a-IsCredential q-IsCredential
      (omega arith) (omega arith) zeros zeros (zeros-IsField 1013) (bank-Fits 100)

terminal-IsSized : IsSized terminal
terminal-IsSized = record { info_size = zeros; data_size = zeros }

-- A new customer pays 100 in, takes 40 out, and leaves.
abbrev inputs : List Input
inputs = sign_in (b'a' ∷ []) (b'p' ∷ []) ∷ pay_in 100 ∷ take_out 40 ∷ finish ∷ []

inputs-ManagesAll : ManagesAll toy_sgx (terminal.send_info) (counter empty_bank terminal) inputs
unfolding log_in position in_use apply credit debit teller written commas print_ld
inputs-ManagesAll = (
  ((a-IsCredential, p-IsCredential, omega arith, omega arith), tt, bank-Fits 0, zeros-IsField 1013),
  ((omega arith, omega arith, omega arith), ((omega arith, omega arith, omega arith), tt)),
)

visit-shown_example :
    Visits toy_machine toy_machine toy_sgx toy_laws terminal empty_world inputs
      (counter (bank 60) (record terminal { pre_amount = 60 }), total 0 ∷ total 100 ∷ total 60 ∷ [])
unfolding teller_all teller balance_in_use log_in position in_use apply credit debit
visit-shown_example =
    visit-shown toy_machine toy_machine toy_sgx toy_laws inputs terminal empty_bank empty_world
      empty_Inv terminal-IsSized inputs-ManagesAll

-- The customer comes back on the next day: 100 are in the file, and the terminal starts anew.
abbrev next_day : List Input
next_day = sign_in (b'a' ∷ []) (b'p' ∷ []) ∷ pay_in 50 ∷ finish ∷ []

next_day-ManagesAll :
    ManagesAll toy_sgx
      (let c = start toy_machine in c.send_info)
      (counter (closed toy_sgx toy_laws (bank 100)) (start toy_machine))
      next_day
unfolding start log_in position in_use apply credit debit teller written commas print_ld
next_day-ManagesAll = (
  (
    (a-IsCredential, p-IsCredential, omega arith, omega arith),
    (omega arith, tt),
    bank-Fits 100,
    zeros-IsField 1013,
  ),
  ((omega arith, omega arith, omega arith), tt),
)

main-visit_example :
    (buffers : List Bytes) × (answers : List Bytes) × (w' : World) × (converse toy_machine
        (script next_day answers)
        (start toy_machine)
      ≡ some (buffers, total 100 ∷ total 150 ∷ []))
    × (main toy_machine toy_sgx toy_platform network (some (codes "3")) (all_received buffers) again
        ≡ (
          ok (record {
            messages = (initialize_enclave toy_platform).1;
            port = some (port_of toy_machine (codes "3"));
            sent = answers;
            exit = waiting;
          }),
          w',
        ))
    × Inv toy_sgx (bank 150) w'
unfolding start teller_all teller balance_in_use log_in position in_use apply credit debit
main-visit_example =
    main-visit toy_machine toy_machine toy_sgx toy_platform toy_laws network (codes "3") next_day
      (bank 100) (funded.0) again (funded.1) refl again-IsServing toy_platform-starts
      next_day-ManagesAll

willing-IsServing : (w : World) → IsServing (restarted willing w)
willing-IsServing w = record {
  readable = record { can_read = refl; can_seek = refl };
  can_write = refl;
  write_succeeds = refl;
  close_succeeds = refl;
}

two_days-ManagesDays :
    ManagesDays toy_machine toy_machine toy_sgx toy_platform toy_laws network
      (codes "3")
      willing
      empty_bank
      (inputs ∷ next_day ∷ [])
unfolding start log_in position in_use apply credit debit teller teller_all written commas print_ld
two_days-ManagesDays = (
  (
    (
      (a-IsCredential, p-IsCredential, omega arith, omega arith),
      tt,
      bank-Fits 0,
      zeros-IsField 1013,
    ),
    ((omega arith, omega arith, omega arith), ((omega arith, omega arith, omega arith), tt)),
  ),
  (
    (
      (
        (a-IsCredential, p-IsCredential, omega arith, omega arith),
        (omega arith, tt),
        bank-Fits 60,
        zeros-IsField 1013,
      ),
      ((omega arith, omega arith, omega arith), tt),
    ),
    tt,
  ),
)

teller_days-Days_example :
    (w' : World) × Days toy_machine toy_machine toy_sgx toy_platform toy_laws network
      (codes "3")
      willing
      empty_world
      (inputs ∷ next_day ∷ [])
      ((total 0 ∷ total 100 ∷ total 60 ∷ []) ∷ (total 60 ∷ total 110 ∷ []) ∷ [])
      w'
    × Inv toy_sgx (bank 110) w'
unfolding start teller_days teller_all teller balance_in_use log_in position in_use apply credit
    debit
teller_days-Days_example =
    teller_days-Days toy_machine toy_machine toy_sgx toy_platform toy_laws network (codes "3")
      willing (inputs ∷ next_day ∷ []) empty_bank empty_world empty_Inv willing-IsServing
      toy_platform-starts two_days-ManagesDays

-- The terminal after a deposit from a buffer of zeros.
abbrev paid : Client → ℕ → Client
paid c amount = record c { send_info = written (pay_in amount) c.send_info }

pay_in-thrice_example :
    (d : Client) × (prepare (pay_in 1) (paid (paid terminal 10000) 100) ≡ some (send d true))
    × ((w : World)
        → handle toy_machine toy_sgx (receive_buf d.send_info) w ≡ (stop out_of_bounds, w))
unfolding written print_ld
pay_in-thrice_example =
    pay_in-thrice toy_machine toy_sgx terminal (paid terminal 10000)
      (paid (paid terminal 10000) 100) (paid terminal 10000) (paid (paid terminal 10000) 100) 10000
      100 1 zeros (omega arith) (omega arith) (omega arith) (omega arith) (omega arith)
      (prepare-pay_in terminal 10000 (omega arith)) refl
      (prepare-pay_in (paid terminal 10000) 100 (omega arith)) refl
