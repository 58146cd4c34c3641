-- ===== src/DealManager.antt =====
-- Enclave/DealManager.h and Enclave/DealManager.cpp: the list of accounts, its marshalling into one
-- buffer, and its way to the host's file and back. Allocation succeeds.
pub mod Refused
pub mod Marshal
pub mod Parse
pub mod Pointers
pub mod Storage
use mathlib.Core.Option
use seccap_sgx_bank.Base.{
  ℕ, zero, suc, ◌+◌, ◌-◌, ◌%◌, Bool, true, false, Option, none, some, List, [], ◌∷◌, ◌++◌, ltb,
  ◌==◌, if◌then◌else◌, length, take, replicate, Bytes,
}
use seccap_sgx_bank.CLib.{u16_mod, u64_mod, le_bytes, read_le, memcpy, add_byte}
use seccap_sgx_bank.UserTypes.{ProcessResult, process_success}
use seccap_sgx_bank.Account.{Account, withdraw, deposit}
use seccap_sgx_bank.Account
use seccap_sgx_bank.Sgx.{Sgx}
use seccap_sgx_bank.Sealing.{sealing, unsealing}
use seccap_sgx_bank.Sealing
use seccap_sgx_bank.Host.{
  ocall_account_list_store, ocall_get_sealed_account_list_size, ocall_get_sealed_account_list,
}
use seccap_sgx_bank.World.{
  World, DealManager, M, ok, stop, assert, out_of_bounds, out_of_fuel, null_pointer, ◌>>=◌, ◌>>◌,
  pure, halt, gets, modify, load, store, alloc, this, set_this, or_stop,
}

-- The constructor.
abbrev pub make : DealManager
make = record { sealing_unsealing = Sealing.make; current_account = none; account_list = [] }

-- The sum of the first loop of `AccountListStoreStorage`; the three `strlen`s are 1 each.
unfoldable pub all_account_data_size : List Account → ℕ → ℕ
all_account_data_size [] size = size
all_account_data_size (a ∷ accounts) size =
    all_account_data_size accounts ((size + a.account_data_size + 1 + 1 + 1) % u64_mod)

-- `data_ptr`, as an offset, and the buffer: a copy to it that moves it on, and `*data_ptr += c`.
abbrev pub Cursor : Type 0
Cursor = ℕ × Bytes

unfoldable pub copy_out : Bytes → Cursor → M Cursor
copy_out src (p, buf) = do
  buf' ← or_stop out_of_bounds (memcpy p src buf)
  pure (p + length src, buf')

unfoldable pub add_out : ℕ → Cursor → M Cursor
add_out c (p, buf) = do buf' ← or_stop out_of_bounds (add_byte p c buf); pure (p + 1, buf')

-- One round of its second loop. The first comma is stored, the second and the newline are added
-- to what the byte holds.
unfoldable pub marshal_account : Account → Cursor → M Cursor
marshal_account a c = do
  c ← copy_out a.name c
  c ← copy_out (b',' ∷ []) c
  c ← copy_out a.password c
  c ← add_out b',' c
  c ← copy_out (le_bytes 8 a.deposits) c
  add_out b'\n' c

unfoldable pub marshal_all : List Account → Cursor → M Cursor
marshal_all [] c = pure c
marshal_all (a ∷ accounts) c = do c ← marshal_account a c; marshal_all accounts c

-- The accounts that a list of pointers stands for.
unfoldable pub load_all : List ℕ → M (List Account)
load_all [] = pure []
load_all (p ∷ ps) = do a ← load p; accounts ← load_all ps; pure (a ∷ accounts)

-- The bytes up to the next comma, and those behind it; `none` where there is none in the buffer.
unfoldable pub read_field : Bytes → Option (Bytes × Bytes)
read_field [] = none
read_field (c ∷ cs) =
    if c == b',' then some ([], cs) else Option.map (λ r. (c ∷ r.0, r.1)) (read_field cs)

abbrev pub uncons : Bytes → Option (ℕ × Bytes)
uncons [] = none
uncons (c ∷ cs) = some (c, cs)

-- The body of the loop of `AccountListSetting`, up to the new account.
unfoldable pub parse_account : Bytes → M (Account × Bytes)
parse_account bytes = do
  (name, bytes) ← or_stop out_of_bounds (read_field bytes)
  (password, bytes) ← or_stop out_of_bounds (read_field bytes)
  (deposits, bytes) ← or_stop out_of_bounds (read_le 8 bytes)
  (c, bytes) ← or_stop out_of_bounds (uncons bytes)
  assert (c == b'\n')
  pure (Account.make name password deposits, bytes)

-- `account_list.push_back(new Account(...))`
unfoldable pub push_account : Account → M (Unit {0})
push_account a = do
  p ← alloc a
  m ← this
  set_this (record m { account_list = m.account_list ++ p ∷ [] })

-- The loop; `rest` is what stands at `data_ptr` in a buffer of `total` bytes.
unfoldable pub parse_loop : ℕ → ℕ → ℕ → Bytes → M (Unit {0})
unfolding push_account
parse_loop zero total size rest = halt out_of_fuel
parse_loop (suc fuel) total size rest = do
  (a, rest') ← parse_account rest
  push_account a
  elim (total - length rest' == size) [ true ↦ pure tt | false ↦ parse_loop fuel total size rest' ]

-- `AccountLogin`
unfoldable pub account_login : M Bool
account_login = do m ← this; elim m.current_account [ none ↦ pure false | some _ ↦ pure true ]

-- `SetCurrentAccount`
unfoldable pub set_current_account : ℕ → M ProcessResult
set_current_account p = do
  m ← this
  set_this (record m { current_account = some p })
  pure process_success

-- `*this->current_account`
unfoldable pub current : M (ℕ × Account)
current = do m ← this; p ← or_stop null_pointer m.current_account; a ← load p; pure (p, a)

-- `DealMyDeposit`: the result code is dropped.
unfoldable pub deal_my_deposit : ℕ → M (Unit {0})
unfolding current deposit
deal_my_deposit amount = do (p, a) ← current; store p (deposit a amount).0

-- `DealMyWithdraw`
unfoldable pub deal_my_withdraw : ℕ → M (Unit {0})
unfolding current withdraw
deal_my_withdraw amount = do (p, a) ← current; store p (withdraw a amount).0

module _ (sgx : Sgx) where
  -- `AccountListStoreStorage`
  unfoldable pub account_list_store_storage : M ProcessResult
  account_list_store_storage = do
    m ← this
    accounts ← load_all m.account_list
    let size = all_account_data_size accounts 0
    (p, buf) ← marshal_all accounts (0, replicate size 0)
    assert (p == size)
    (blob, n) ← sealing sgx m.sealing_unsealing buf (size % u16_mod) 10000
    ocall_account_list_store (take n blob)
    pure process_success

  -- `AccountListSetting`, whose result nobody reads (and which returns none). A round of its loop
  -- takes a byte at least, so more rounds than bytes are never made.
  unfoldable pub account_list_setting : M (Unit {0})
  account_list_setting = do
    size ← ocall_get_sealed_account_list_size
    if ltb 0 size
        then (do
          blob ← ocall_get_sealed_account_list size
          m ← this
          (bytes, n) ← unsealing sgx m.sealing_unsealing blob
          parse_loop (length bytes + 1) (length bytes) n bytes)
        else pure tt
