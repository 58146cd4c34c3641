-- ===== src/Tests/Refusal.antt =====
-- Witnesses of the theorems on a host that cannot write the file.
use seccap_sgx_bank.Tests.{toy_sgx, toy_laws, toy_machine, empty_world, willing}
use seccap_sgx_bank.Tests.Requests.{alice, bank, funded}
use seccap_sgx_bank.Tests.Session.{toy_platform}
use seccap_sgx_bank.Tests.Whole.{again, network, events}
use seccap_sgx_bank.Base.{◌≡◌, refl, false, some, none, Option, Bytes}
use seccap_sgx_bank.UserTypes.{process_success}
use seccap_sgx_bank.World.{World, Io, ok}
use seccap_sgx_bank.Bank.{credit, in_use, my_deposit}
use seccap_sgx_bank.Enclave.{ecall_init_manager, ecall_my_deposit}
use seccap_sgx_bank.Enclave.Inv.{Inv}
use seccap_sgx_bank.Enclave.Refinement.{call}
use seccap_sgx_bank.Enclave.Restart.{closed, IsServing}
use seccap_sgx_bank.Host.Refused.{failing}
use seccap_sgx_bank.Enclave.Durable.{Spares, call-Refused}
use seccap_sgx_bank.Enclave.Lost.{unclosed, ecall_my_deposit-lost}
use seccap_sgx_bank.Server.{codes}
use seccap_sgx_bank.App.{main}
use seccap_sgx_bank.App.Refused.{main-refused}

-- A host that opens no file for writing.
abbrev unwilling : Io
unwilling = record willing { can_write = false }

-- A start on a file.
abbrev restarted : Option Bytes → World
restarted f = record empty_world { deal_manager = none; file = f }

restarted-IsServing : (f : Option Bytes) → IsServing (restarted f)
restarted-IsServing f = record {
  readable = record { can_read = refl; can_seek = refl };
  can_write = refl;
  write_succeeds = refl;
  close_succeeds = refl;
}

-- A customer is served, on a host on which a write fails.
abbrev failing_world : World
failing_world = record (funded.0) { io = record willing { write_succeeds = false } }

call-Refused_example :
    Spares failing (my_deposit 5) failing_world (call toy_sgx (my_deposit 5) failing_world)
call-Refused_example =
    call-Refused toy_sgx failing (my_deposit 5) failing_world (record { why = refl })

-- The file in which Alice owns 100, and what a deposit of 5 that could not be closed makes of it.
abbrev kept_file : Bytes
kept_file = let l = (let v = funded.1 in v.live) in l.old_file

abbrev after_unclosed : World
after_unclosed =
    let (r, w) = ecall_my_deposit toy_sgx 5 (unclosed kept_file (funded.0)) in restarted w.file

ecall_my_deposit-lost_example :
    let (r, w') = ecall_my_deposit toy_sgx 5 (unclosed kept_file (funded.0)) in
    (r ≡ ok 105)
    × (w₁ : World) × (ecall_init_manager toy_sgx after_unclosed ≡ (ok process_success, w₁))
    × Inv toy_sgx (closed toy_sgx toy_laws (bank 100)) w₁
unfolding in_use credit
ecall_my_deposit-lost_example =
    ecall_my_deposit-lost toy_sgx toy_laws (bank 100) kept_file (funded.0) after_unclosed 5 0
      (alice 100) (funded.1) refl (let l = (let v = funded.1 in v.live) in l.file_is) refl
      (restarted-IsServing after_unclosed.file)

-- The host refuses during a run in which a deposit is received, and then no longer.
abbrev refused_run : World
refused_run = record again { io = unwilling }

abbrev left_file : Option Bytes
left_file =
    let (r, left) =
      main toy_machine toy_sgx toy_platform network (some (codes "3")) events refused_run in
    left.file

abbrev later : World
later = restarted left_file

main-refused_example :
    (w : World) × (ecall_init_manager toy_sgx later ≡ (ok process_success, w))
    × Inv toy_sgx (closed toy_sgx toy_laws (bank 100)) w
main-refused_example =
    main-refused toy_machine toy_sgx toy_platform toy_laws network (some (codes "3")) events
      (bank 100) (funded.0) refused_run later (funded.1) refl refl refl
      (restarted-IsServing left_file)
