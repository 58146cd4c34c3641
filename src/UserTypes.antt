-- ===== src/UserTypes.antt =====
-- Include/user_types.h: the result codes that the enclave and the application share.
use seccap_sgx_bank.Base.{ℕ}

pub data ProcessResult : Type 0 where
  process_success deposit_overflow need_logout account_set_fail : ProcessResult

-- The value of the enumerator, which a function that returns `uint64_t` hands out as a number.
abbrev pub to_ℕ : ProcessResult → ℕ
to_ℕ process_success = 0
to_ℕ deposit_overflow = 1
to_ℕ need_logout = 2
to_ℕ account_set_fail = 3
