-- ===== src/Sgx.antt =====
-- The sealing functions of the SGX SDK (sgx_tseal.h), which are not part of the repository: the
-- enclave's code takes them as a parameter, and relies on what the SDK documents of them.
use seccap_sgx_bank.Base.{ℕ, ◌-◌, ◌^◌, ◌<◌, ◌≡◌, Option, none, some, ◌++◌, length, Bytes}

pub record Sgx : Type 0 where
  -- `sgx_calc_sealed_data_size(add_mac_txt_size, txt_encrypt_size)`
  pub calc_sealed_data_size : ℕ → ℕ → ℕ
  -- `sgx_seal_data`: the random draw, the additional text, the secret and the size of the buffer;
  -- the contents of the buffer, or `none` for a status other than SGX_SUCCESS
  pub seal_data : ℕ → Bytes → Bytes → ℕ → Option Bytes
  pub get_add_mac_txt_len : Bytes → ℕ
  pub get_encrypt_txt_len : Bytes → ℕ
  -- `sgx_unseal_data`: the additional text and the secret, or `none` for a failure
  pub unseal_data : Bytes → Option (Bytes × Bytes)

-- What the SDK documents. A sealed blob carries its own lengths, so what stands behind it in the
-- buffer is not read.
pub record SgxLaws (sgx : Sgx) : Type 0 where
  pub seal_succeeds :
      (draw : ℕ) (mac secret : Bytes)
      → 0 < length secret
      → Sgx.calc_sealed_data_size sgx (length mac) (length secret) < 2 ^ 32 - 1
      → (b : Bytes) × (Sgx.seal_data sgx draw mac secret
            (Sgx.calc_sealed_data_size sgx (length mac) (length secret))
          ≡ some b)
  pub txt-lt-calc : (mac txt : ℕ) → txt < 2 ^ 32 - 1 → txt < Sgx.calc_sealed_data_size sgx mac txt
  pub seal_fails_short :
      (draw : ℕ) (mac secret : Bytes) (n : ℕ)
      → n < Sgx.calc_sealed_data_size sgx (length mac) (length secret)
      → Sgx.seal_data sgx draw mac secret n ≡ none
  pub length-seal :
      (draw : ℕ) (mac secret b : Bytes) (n : ℕ)
      → Sgx.seal_data sgx draw mac secret n ≡ some b
      → length b ≡ n
  pub mac_len-seal :
      (draw : ℕ) (mac secret b rest : Bytes) (n : ℕ)
      → Sgx.seal_data sgx draw mac secret n ≡ some b
      → Sgx.get_add_mac_txt_len sgx (b ++ rest) ≡ length mac
  pub txt_len-seal :
      (draw : ℕ) (mac secret b rest : Bytes) (n : ℕ)
      → Sgx.seal_data sgx draw mac secret n ≡ some b
      → Sgx.get_encrypt_txt_len sgx (b ++ rest) ≡ length secret
  pub unseal-seal :
      (draw : ℕ) (mac secret b rest : Bytes) (n : ℕ)
      → Sgx.seal_data sgx draw mac secret n ≡ some b
      → Sgx.unseal_data sgx (b ++ rest) ≡ some (mac, secret)
