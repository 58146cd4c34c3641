-- ===== src/Tests/Session.antt =====
-- Witnesses of the theorems on the terminal and on the start of the enclave.
use seccap_sgx_bank.Tests.{toy_sgx, toy_machine, empty_world}
use seccap_sgx_bank.Base.{
  ℕ, zero, suc, ◌≡◌, true, false, some, [], refl, ◌∷◌, length-replicate, replicate, arith, Bytes,
}
use seccap_sgx_bank.CLib.{print_ld}
use seccap_sgx_bank.World.{stop, out_of_bounds}
use seccap_sgx_bank.DealManager.Parse.{IsField}
use seccap_sgx_bank.Server.{
  received, codes, receive_buf, split, split_loop, handle, execute, reception,
}
use seccap_sgx_bank.Server.Ending.{HasEnd, reception-HasEnd}
use seccap_sgx_bank.CLib.{c_str, strncmp_eq}
use seccap_sgx_bank.Client.{Client, send, sign_in, pay_in, prepare}
use seccap_sgx_bank.Client.Stale.{handle-pay_in}
use seccap_sgx_bank.Launch.{Platform, Status}

-- A terminal whose buffers happen to hold zeros.
abbrev pub terminal : Client
terminal = record {
  send_info = replicate 1024 0;
  receive_data = replicate 1024 0;
  login = false;
  pre_amount = 0;
}

pub zeros-IsField : (n : ℕ) → IsField (replicate n 0)
zeros-IsField zero = tt
zeros-IsField (suc n) = (omega arith, zeros-IsField n)

abbrev pub alice_b : Bytes
alice_b = codes "alice_b"

alice_b-IsField : IsField alice_b
alice_b-IsField = ground arith

handle-pay_in_example :
    (d : Client) × (e : Client) × (prepare (sign_in alice_b (codes "pw")) terminal
      ≡ some (send d false))
    × (prepare (pay_in 50) d ≡ some (send e true))
    × (handle toy_machine toy_sgx (receive_buf e.send_info) empty_world
        ≡ (stop out_of_bounds, empty_world))
unfolding print_ld
handle-pay_in_example =
    handle-pay_in toy_machine toy_sgx empty_world terminal alice_b (codes "pw") 50
      (let zero_byte : ℕ = 0 in length-replicate 1024 zero_byte) (zeros-IsField 1024)
      alice_b-IsField (omega arith, (omega arith, tt)) (omega arith) (omega arith) (omega arith)

abbrev pub toy_platform : Platform
toy_platform = record {
  max_path = 4096;
  token_size = 4;
  home_dir = some (codes "/root");
  open_read = λ path. some (1 ∷ 2 ∷ 3 ∷ []);
  open_write = λ path. true;
  reopen_write = λ path. true;
  written = λ token. 4;
  status_value = λ s. elim s [ Status.success ↦ 0 | _ ↦ 1 ];
  create_enclave = λ token. (0, true, token);
}

reception-HasEnd_example : HasEnd (received (codes "end,") ∷ [])
unfolding reception handle execute receive_buf split split_loop strncmp_eq c_str
reception-HasEnd_example =
    reception-HasEnd toy_machine toy_sgx (received (codes "end,") ∷ []) empty_world empty_world []
      refl
