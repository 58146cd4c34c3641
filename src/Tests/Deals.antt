-- ===== src/Tests/Deals.antt =====
-- Witnesses of the theorems on the terminal and the server together, and on two starts in a row.
use seccap_sgx_bank.Tests.{toy_sgx, toy_laws, toy_machine}
use seccap_sgx_bank.Tests.Requests.{bank, alice, funded}
use seccap_sgx_bank.Tests.Session.{terminal, toy_platform}
use seccap_sgx_bank.Base.{
  ℕ, ◌≡◌, refl, true, some, none, [], ◌∷◌, length, length-replicate, arith, Bytes,
}
use seccap_sgx_bank.CLib.{print_ld}
use seccap_sgx_bank.World.{World, ok}
use seccap_sgx_bank.Bank.{in_use}
use seccap_sgx_bank.Enclave.Inv.{Inv}
use seccap_sgx_bank.Server.{reply, receive_buf, handle}
use seccap_sgx_bank.Server.Cut.{commas}
use seccap_sgx_bank.Launch.{Platform, read_token, token_path, initialize_enclave, opened_file}
use seccap_sgx_bank.Launch.Start.{read_token-initialize_enclave}
use seccap_sgx_bank.Client.{Client, total, send, pay_in, take_out, prepare, on_reply}
use seccap_sgx_bank.Client.Conversation.{pay_in-shown, take_out-shown}

pub zeros : length (terminal.send_info) ≡ 1024
zeros = let zero_byte : ℕ = 0 in length-replicate 1024 zero_byte

pay_in-shown_example :
    (d : Client) × (e : Client) × (text : Bytes) × (w' : World) × (prepare (pay_in 50) terminal
      ≡ some (send d true))
    × (handle toy_machine toy_sgx (receive_buf d.send_info) (funded.0) ≡ (ok (reply text), w'))
    × (on_reply toy_machine true text d ≡ some (e, total 150 ∷ []))
    × Inv toy_sgx (bank 150) w'
unfolding in_use print_ld commas
pay_in-shown_example =
    pay_in-shown toy_machine toy_machine toy_sgx toy_laws terminal (bank 100) (funded.0) 50 0
      (alice 100) (funded.1) refl (omega arith) zeros zeros (omega arith)

take_out-shown_example :
    (d : Client) × (e : Client) × (text : Bytes) × (w' : World) × (prepare (take_out 40) terminal
      ≡ some (send d true))
    × (handle toy_machine toy_sgx (receive_buf d.send_info) (funded.0) ≡ (ok (reply text), w'))
    × (on_reply toy_machine true text d ≡ some (e, total 60 ∷ []))
    × Inv toy_sgx (bank 60) w'
unfolding in_use print_ld commas
take_out-shown_example =
    take_out-shown toy_machine toy_machine toy_sgx toy_laws terminal (bank 100) (funded.0) 40 0
      (alice 100) (funded.1) refl (omega arith) (omega arith) zeros zeros (omega arith)

-- A platform whose SDK makes a token where it is given zeros.
abbrev fresh_platform : Platform
fresh_platform = record toy_platform {
  open_read = λ path. none;
  create_enclave = λ token. (0, true, 5 ∷ 6 ∷ 7 ∷ 8 ∷ []);
}

read_token-initialize_enclave_example :
    let next = record fresh_platform {
      open_read = λ path. (initialize_enclave fresh_platform).2;
    } in
    (read_token next (token_path next)).0 ≡ 5 ∷ 6 ∷ 7 ∷ 8 ∷ []
unfolding opened_file
read_token-initialize_enclave_example =
    read_token-initialize_enclave fresh_platform (5 ∷ 6 ∷ 7 ∷ 8 ∷ []) refl (λ e. cc) refl refl refl
