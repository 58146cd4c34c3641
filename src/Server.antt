-- ===== src/Server.antt =====
-- App/App.cpp: the reception of `main`. The client's socket is the sequence of what `recv`
-- returns and of what is written. A run is followed up to its first fault.

pub mod Refused
pub mod Split
pub mod Replies
pub mod Messages
pub mod Ending
pub mod Cut
pub mod Respond
pub mod Perform
pub mod Refinement
pub mod Sequence
use seccap_sgx_bank.Base.{
  ℕ, zero, suc, ◌+◌, ◌%◌, ◌≡◌, Bool, true, false, Option, none, some, List, [], ◌∷◌, ◌++◌, ltb,
  ◌==◌, if◌then◌else◌, length, get_elem?, take, drop, replicate, Bytes,
}
use seccap_sgx_bank.CLib.{c_str, strncmp_eq, print_ld, atoi}
use seccap_sgx_bank.UserTypes.{
  ProcessResult, process_success, deposit_overflow, need_logout, account_set_fail,
}
use seccap_sgx_bank.Sgx.{Sgx}
use seccap_sgx_bank.Enclave.{
  ecall_init_manager, ecall_new_account, ecall_my_deposit, ecall_my_withdraw, ecall_my_inquiry,
}
use seccap_sgx_bank.World.{
  World, M, ok, stop, out_of_bounds, null_pointer, ◌>>=◌, ◌>>◌, pure, halt, or_stop, print,
  perror_recv, login_start, deposit_start, withdraw_start, finished,
}
use Prim.Native.Char.{code}
use Prim.Native.String.{String}

-- The bytes of a literal of the source.
abbrev pub codes : String → Bytes
codes String.[] = []
codes (String.◌∷◌ c s) = code c ∷ codes s

-- What C leaves open: `atoi` of a number that no `int` holds, and the contents of an array that
-- has not been initialised.
pub record Machine : Type 0 where
  pub atoi_open : Bytes → ℕ
  pub garbage : ℕ → Bytes
  pub length-garbage : (n : ℕ) → length (garbage n) ≡ n

-- What `recv` returns: 0, -1, or the number of the bytes that it stored.
pub data Recv : Type 0 where
  closed failed : Recv
  received : Bytes → Recv

-- What the server does for one message: it goes on, with the bytes that it wrote to the client, or
-- leaves the loop.
pub data Outcome : Type 0 where
  reply : Bytes → Outcome
  server_end : Outcome

abbrev pub receive_buf_size : ℕ
receive_buf_size = 1024

-- The buffer, allocated with zeros, after the bytes have been stored in it.
unfoldable pub receive_buf : Bytes → Bytes
receive_buf bytes = take receive_buf_size (bytes ++ replicate receive_buf_size 0)

-- The loop that splits the buffer. `field` is what stands from `start_iter` on, `fields` what
-- `data` holds; `none` is a write behind the three entries of `data`.
unfoldable pub split_loop : Bytes → Bytes → List Bytes → Option (List Bytes)
split_loop [] field fields = some fields
split_loop (c ∷ buf) field fields = elim (c == b',') [
  | true ↦ elim (ltb (length fields) 3) [
    | true ↦ split_loop buf [] (fields ++ field ∷ [])
    | false ↦ none
  ]
  | false ↦ split_loop buf (field ++ c ∷ []) fields
]

unfoldable pub split : Bytes → Option (List Bytes)
unfolding split_loop
split buf = split_loop buf [] []

-- `data[i]` as a C string, `none` where it is still NULL
abbrev pub entry : List Bytes → ℕ → Option Bytes
entry fields i = elim (get_elem? fields i) [ none ↦ none | some f ↦ some (c_str f) ]

module _ (machine : Machine) where
  open machine use {atoi_open, garbage}

  -- `sprintf` of a text into an uninitialised array of `n` bytes, and the array
  unfoldable pub sprintf_new : ℕ → Bytes → M Bytes
  sprintf_new n text =
      if ltb n (length text + 1)
      then halt out_of_bounds
      else pure (text ++ (0 ∷ drop (length text + 1) (garbage n)))

  -- `uint64_t amount = atoi(data[1])`
  unfoldable pub read_amount : List Bytes → M ℕ
  read_amount fields = do text ← or_stop null_pointer (entry fields 1); pure (atoi atoi_open text)

  module _ (sgx : Sgx) where
    unfoldable pub login_process : List Bytes → M Outcome
    login_process fields = do
      print login_start
      result ← ecall_new_account sgx (entry fields 1) (entry fields 2)
      elim result [
        | account_set_fail ↦ pure (reply (codes "login fail."))
        | _ ↦ do
          deposits ← ecall_my_inquiry
          send_data ← sprintf_new 13 (codes "login" ++ print_ld deposits)
          pure (reply send_data)
      ]

    unfoldable pub deposit_process : List Bytes → M Outcome
    deposit_process fields = do
      print deposit_start
      amount ← read_amount fields
      deposits ← ecall_my_deposit sgx amount
      send_data ← sprintf_new 8 (print_ld deposits)
      pure (reply send_data)

    unfoldable pub withdraw_process : List Bytes → M Outcome
    withdraw_process fields = do
      print withdraw_start
      amount ← read_amount fields
      deposits ← ecall_my_withdraw sgx amount
      if ltb deposits amount
          then pure (reply (codes "too big."))
          else (do send_data ← sprintf_new 8 (print_ld deposits); pure (reply send_data))

    -- The tests of the received instruction, in their order.
    unfoldable pub execute : Bytes → Bytes → List Bytes → M Outcome
    execute buf command fields =
        if strncmp_eq (codes "login") command 5
        then login_process fields
        else if strncmp_eq (codes "deposit") command 7
        then deposit_process fields
        else if strncmp_eq (codes "withdraw") command 8
        then withdraw_process fields
        else if strncmp_eq (codes "end") buf 3
        then pure server_end
        else pure (reply [])

    -- One message: it is split, executed and, but for the end, reported.
    unfoldable pub handle : Bytes → M Outcome
    handle buf = do
      fields ← or_stop out_of_bounds (split buf)
      command ← or_stop null_pointer (entry fields 0)
      outcome ← execute buf command fields
      elim outcome [
        | server_end ↦ pure server_end
        | reply bytes ↦ (do print finished; pure (reply bytes))
      ]

    -- The two loops of the reception: what is written to the client, and whether the server has
    -- left them. After `recv` has returned 0 the outer loop enters the inner one again.
    unfoldable pub reception : List Recv → M (List Bytes × Bool)
    unfolding receive_buf
    reception [] = pure ([], false)
    reception (closed ∷ events) = reception events
    reception (failed ∷ events) = do print perror_recv; reception events
    reception (received bytes ∷ events) = do
      outcome ← handle (receive_buf bytes)
      elim outcome [
        | server_end ↦ pure ([], true)
        | reply text ↦ do (texts, ended) ← reception events; pure (text ∷ texts, ended)
      ]
