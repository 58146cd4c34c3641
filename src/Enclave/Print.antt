-- ===== src/Enclave/Print.antt =====
-- Enclave/Enclave.cpp: the enclave's `printf`, and App/App.cpp: `ocall_print_string`. BUFSIZ is the
-- SDK's, and what `vsnprintf` makes of the array is the C library's: both are parameters.
use seccap_sgx_bank.Base.{ℕ, ◌+◌, ◌-◌, length, take, replicate, Bytes}
use seccap_sgx_bank.CLib.{c_str}

-- `printf("%s", str)` on the host
unfoldable pub ocall_print_string : Bytes → Bytes
unfolding c_str
ocall_print_string str = c_str str

-- What is printed, and the result. `vsnprintf` is given the array, of BUFSIZ zeros, and its size,
-- and answers the array as it leaves it.
printf : (Bytes → ℕ → Bytes) → ℕ → Bytes × ℕ
unfolding ocall_print_string c_str
printf vsnprintf bufsiz =
    let buf = vsnprintf (replicate bufsiz 0) bufsiz in
    (ocall_print_string buf, length (c_str (take (bufsiz - 1) buf)) + 1)
