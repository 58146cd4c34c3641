-- ===== src/App/Refused.antt =====
-- A run of the application whose host refuses to open the file for writing.
use seccap_sgx_bank.Base.{◌≡◌, ◌∙◌, arith, false, Option, List, Bytes}
use seccap_sgx_bank.UserTypes.{process_success}
use seccap_sgx_bank.Bank.{Bank}
use seccap_sgx_bank.Sgx.{Sgx, SgxLaws}
use seccap_sgx_bank.World.{World, ok}
use seccap_sgx_bank.World.Preserves.{Preserves, Preserves-Bool}
use seccap_sgx_bank.Host.Refused.{Refusal, shut, Refused, Preserves-host, refused}
use seccap_sgx_bank.Enclave.{ecall_init_manager}
use seccap_sgx_bank.Enclave.Inv.{Inv}
use seccap_sgx_bank.Enclave.Refused.{ecall_init_manager-Refused}
use seccap_sgx_bank.Enclave.Restart.{IsServing, closed, ecall_init_manager-Inv}
use seccap_sgx_bank.Server.{Machine, Recv}
use seccap_sgx_bank.Server.Refused.{reception-Refused}
use seccap_sgx_bank.Launch.{Platform, Message, initialize_enclave}
use seccap_sgx_bank.App.{Network, prepare_communication, serve, main}

module _ {k : Refusal} (machine : Machine) (sgx : Sgx) (platform : Platform) where
  prepare_communication-Refused :
      (network : Network) (arg : Option Bytes)
      → Preserves (Refused k) (prepare_communication machine network arg)
  unfolding prepare_communication
  prepare_communication-Refused network arg =
      Preserves-host (prepare_communication machine network arg) (λ w. (ground arith, ground arith))

  serve-Refused :
      (messages : List Message) (port : _) (events : List Recv)
      → Preserves (Refused k) (serve machine sgx platform messages port events)
  unfolding serve
  serve-Refused messages port events = search (refused, reception-Refused) depth 8

  main-Refused :
      (network : Network) (arg : Option Bytes) (events : List Recv)
      → Preserves (Refused k) (main machine sgx platform network arg events)
  unfolding main
  main-Refused network arg events =
      let (started, messages, token_file) = initialize_enclave platform in
      Preserves-Bool started _ _
        (search (refused, ecall_init_manager-Refused, prepare_communication-Refused, serve-Refused)
          depth 8)
        (search refused depth 8)

module _ (machine : Machine) (sgx : Sgx) (platform : Platform) (laws : SgxLaws sgx) where
  -- A run of the application while the host refuses to open the file for writing loses nothing,
  -- whatever the sockets do and is received, and however the run ends: on the file that it leaves,
  -- a later run of the enclave, which may read and write it, starts with success and stands for
  -- the bank with the same accounts, if the file before the refused run was that of a state that
  -- stood for the bank.
  pub main-refused :
      (network : Network) (arg : Option Bytes) (events : List Recv) (b : Bank) (w w₀ w₁ : World)
      → Inv sgx b w
      → w₀.file ≡ w.file
      → w₀.io.can_write ≡ false
      → w₁.file ≡ (let (r, left) = main machine sgx platform network arg events w₀ in left.file)
      → IsServing w₁
      → (w₂ : World) × (ecall_init_manager sgx w₁ ≡ (ok process_success, w₂))
        × Inv sgx (closed sgx laws b) w₂
  main-refused network arg events b w w₀ w₁ v file refusal left serving =
      let kept = main-Refused {k = shut w.file} machine sgx platform network arg events in
      let still = kept.at w₀ (record { why = (refusal, file) }) in
      let (closed_still, same) = still.why in
      ecall_init_manager-Inv sgx laws b w w₁ v (left ∙ same) serving
