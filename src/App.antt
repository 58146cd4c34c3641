-- ===== src/App.antt =====
-- App/App.cpp: `main` as a whole: the start of the enclave, the sockets, the reception and the end.
pub mod Run
pub mod Refused
pub mod Visit
pub mod Days
use seccap_sgx_bank.Base.{
  ℕ, ◌+◌, ◌%◌, Bool, true, false, Option, none, some, List, [], ◌∷◌, not, Bytes,
}
use seccap_sgx_bank.CLib.{u16_mod, atoi}
use seccap_sgx_bank.Sgx.{Sgx}
use seccap_sgx_bank.World.{
  World, M, ok, stop, null_pointer, ◌>>=◌, ◌>>◌, pure, or_stop, print, when, perror_socket,
  perror_bind, perror_listen, perror_accept, enter_character, enclave_destroyed,
}
use seccap_sgx_bank.Enclave.{ecall_init_manager}
use seccap_sgx_bank.Server.{Machine, Recv, reception}
use seccap_sgx_bank.Launch.{Platform, Message, initialize_enclave}

-- How the system answers to the calls that set the sockets up.
pub record Network : Type 0 where
  pub socket_ok : Bool
  pub bind_ok : Bool
  pub listen_ok : Bool
  pub accept_ok : Bool

-- The exit code, as far as the run has one: it waits where nothing more is received.
pub data Exit : Type 0 where
  exit_minus_one exit_zero waiting : Exit

-- What a run of the application leaves: what the start of the enclave printed, the port, and what
-- was written to the client.
pub record Session : Type 0 where
  pub messages : List Message
  pub port : Option ℕ
  pub sent : List Bytes
  pub exit : Exit

module _ (machine : Machine) where
  -- `uint16_t port = 1230; port += atoi(argv[1])`; `none` is a missing argument.
  abbrev pub port_of : Bytes → ℕ
  port_of arg = (1230 + atoi (machine.atoi_open) arg) % u16_mod

  -- The calls in their order. A call that fails is only reported.
  unfoldable pub prepare_communication : Network → Option Bytes → M ℕ
  prepare_communication network arg = do
    when (not (network.socket_ok)) (print perror_socket)
    text ← or_stop null_pointer arg
    when (not (network.bind_ok)) (print perror_bind)
    when (not (network.listen_ok)) (print perror_listen)
    when (not (network.accept_ok)) (print perror_accept)
    pure (port_of text)

  module _ (sgx : Sgx) (platform : Platform) where
    -- `main`, from the reception on.
    unfoldable pub serve : List Message → ℕ → List Recv → M Session
    serve messages port events = do
      (sent, ended) ← reception machine sgx events
      when ended (print enclave_destroyed)
      pure (record {
        messages = messages;
        port = some port;
        sent = sent;
        exit = elim ended [ true ↦ exit_zero | false ↦ waiting ];
      })

    unfoldable pub main : Network → Option Bytes → List Recv → M Session
    unfolding serve prepare_communication
    main network arg events =
        let (started, messages, token_file) = initialize_enclave platform in
        elim started [
          | false ↦ do
            print enter_character
            pure (record { messages = messages; port = none; sent = []; exit = exit_minus_one })
          | true ↦ do
            ecall_init_manager sgx
            port ← prepare_communication network arg
            serve messages port events
        ]
