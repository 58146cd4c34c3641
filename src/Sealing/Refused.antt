-- ===== src/Sealing/Refused.antt =====
-- Sealing and unsealing touch neither the file nor the host.
use seccap_sgx_bank.Base.{ℕ, arith, Bytes}
use seccap_sgx_bank.Sgx.{Sgx}
use seccap_sgx_bank.World.{SealingUnsealing}
use seccap_sgx_bank.World.Preserves.{Preserves}
use seccap_sgx_bank.Host.Refused.{Refusal, Refused, Preserves-host, refused}
use seccap_sgx_bank.Sealing.{get_sealed_data_size, seal_into, sealing, unseal_from, unsealing}

module _ {k : Refusal} (sgx : Sgx) where
  get_sealed_data_size-Refused :
      (s : SealingUnsealing) (n limit : ℕ)
      → Preserves (Refused k) (get_sealed_data_size sgx s n limit)
  unfolding get_sealed_data_size
  get_sealed_data_size-Refused s n limit = search refused depth 8

  seal_into-Refused :
      (s : SealingUnsealing) (secret : Bytes) (n : ℕ)
      → Preserves (Refused k) (seal_into sgx s secret n)
  unfolding seal_into
  seal_into-Refused s secret n =
      Preserves-host (seal_into sgx s secret n) (λ w. (ground arith, ground arith))

  pub sealing-Refused :
      (s : SealingUnsealing) (plain : Bytes) (n limit : ℕ)
      → Preserves (Refused k) (sealing sgx s plain n limit)
  unfolding sealing
  sealing-Refused s plain n limit =
      search (refused, get_sealed_data_size-Refused, seal_into-Refused) depth 8

  unseal_from-Refused : (blob : Bytes) → Preserves (Refused k) (unseal_from sgx blob)
  unfolding unseal_from
  unseal_from-Refused blob =
      Preserves-host (unseal_from sgx blob) (λ w. (ground arith, ground arith))

  pub unsealing-Refused :
      (s : SealingUnsealing) (blob : Bytes) → Preserves (Refused k) (unsealing sgx s blob)
  unfolding unsealing
  unsealing-Refused s blob = search (refused, unseal_from-Refused) depth 12
