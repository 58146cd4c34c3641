-- ===== src/Sealing.antt =====
-- Enclave/sealing.h and Enclave/sealing.cpp: sealing and unsealing of byte strings. Allocation
-- succeeds.
pub mod Refused
pub mod RoundTrip
use seccap_sgx_bank.Base.{
  ℕ, zero, suc, ◌+◌, ◌-◌, ◌%◌, Option, none, some, [], ◌∷◌, ◌++◌, ltb, bytes_eq, if◌then◌else◌,
  length, take, replicate, Bytes,
}
use seccap_sgx_bank.CLib.{u16_mod, c_str}
use seccap_sgx_bank.Sgx.{Sgx}
use seccap_sgx_bank.World.{
  World, SealingUnsealing, M, ok, stop, assert, out_of_bounds, ◌>>=◌, ◌>>◌, pure, halt, gets,
  modify, print, when, sealed_size_too_big, sealed_size_over_limit, sealing_failed,
  unsealing_failed,
}

-- The constructor.
abbrev pub make : SealingUnsealing
make = record { add_mac_txt = [] }

module _ (sgx : Sgx) where
  open sgx use {
    calc_sealed_data_size, seal_data, get_add_mac_txt_len, get_encrypt_txt_len, unseal_data,
  }

  -- `get_sealed_data_size`: both tests only print, and the size is cut to 16 bits.
  unfoldable pub get_sealed_data_size : SealingUnsealing → ℕ → ℕ → M ℕ
  unfolding c_str
  get_sealed_data_size s txt_encrypt_size limit = do
    let size = calc_sealed_data_size (length (c_str s.add_mac_txt)) txt_encrypt_size
    when (ltb (u16_mod - 1) size) (print (sealed_size_too_big size))
    when (ltb limit size) (print (sealed_size_over_limit size))
    pure (size % u16_mod)

  -- `sgx_seal_data` into a buffer of `n` zeros, with its status
  seal_into : SealingUnsealing → Bytes → ℕ → M Bytes
  seal_into s secret n = do
    w ← gets (λ w. w)
    modify (λ w. record w { draws = suc w.draws })
    elim (seal_data w.draws (c_str s.add_mac_txt) secret n) [
      | some b ↦ pure b
      | none ↦ (do print (sealing_failed n (length secret)); pure (replicate n 0))
    ]

  -- `sealing`: the buffer and its size.
  unfoldable pub sealing : SealingUnsealing → Bytes → ℕ → ℕ → M (Bytes × ℕ)
  unfolding get_sealed_data_size seal_into
  sealing s plain plain_size limit = do
    n ← get_sealed_data_size s plain_size limit
    b ← seal_into s (take plain_size plain) n
    pure (b, n)

  -- What `sgx_unseal_data` leaves in the two buffers; after a failure they are still zeros.
  unseal_from : Bytes → M (Bytes × Bytes)
  unseal_from blob = elim (unseal_data blob) [
    | some r ↦ pure r
    | none ↦ do
      print (unsealing_failed (get_add_mac_txt_len blob) (get_encrypt_txt_len blob))
      pure (replicate (get_add_mac_txt_len blob) 0, replicate (get_encrypt_txt_len blob) 0)
  ]

  -- `unsealing`: the secret and its size, which the result type cuts to 16 bits. `memcmp` reads
  -- `add_mac_txt` up to and with its NUL.
  unfoldable pub unsealing : SealingUnsealing → Bytes → M (Bytes × ℕ)
  unfolding unseal_from bytes_eq
  unsealing s blob = do
    (mac, secret) ← unseal_from blob
    if ltb (length s.add_mac_txt + 1) (length mac)
        then halt out_of_bounds
        else assert (bytes_eq mac (take (length mac) (s.add_mac_txt ++ (0 ∷ []))))
    pure (secret, length secret % u16_mod)
