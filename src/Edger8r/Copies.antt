-- ===== src/Edger8r/Copies.antt =====
-- What the pointer ecalls write, on any buffer.
use seccap_sgx_bank.Base.{
  ℕ, zero, suc, ◌-◌, ◌<◌, ◌≤◌, ◌≡◌, refl, ◌∙◌, ap, true, Bool-cases, inl, inr, some, List, [], ◌∷◌,
  ◌++◌, ◌==◌, ltb, leb, if◌then◌else◌, length, get_elem?, take, drop, replicate, arith, Bytes,
}
use seccap_sgx_bank.CLib.{c_str, strcmp_eq, overwrite}
use seccap_sgx_bank.Client.Buffer.{overwrite-drop}
use seccap_sgx_bank.Edger8r.{Bridge, BridgeLaws}
use seccap_sgx_bank.Edger8r.Arrays.{all_equal}
use seccap_sgx_bank.Edger8r.Pointers.{
  strncpy, sgx_success, checksum_internal, ecall_pointer_user_check, ecall_pointer_in,
  ecall_pointer_out, ecall_pointer_in_out, ocall_pointer_user_check, ocall_pointer_in,
  ocall_pointer_out, ocall_pointer_in_out, ocall_pointer_attr, ecall_pointer_string,
  ecall_pointer_string_const, ecall_pointer_size, ecall_pointer_isptr_readonly, count_loop,
  ecall_pointer_count, edger8r_pointer_attributes,
}

-- A padding that is long enough may be longer.
take-padding :
    (n m : ℕ) (s : Bytes) → n ≤ m → take n (s ++ replicate m 0) ≡ take n (s ++ replicate (suc m) 0)
take-padding zero m s h = refl
take-padding (suc n) zero s h = absurd (omega arith)
take-padding (suc n) (suc m) [] h = ap (◌∷◌ 0) (take-padding n m [] (omega arith))
take-padding (suc n) (suc m) (c ∷ s) h = ap (◌∷◌ c) (take-padding n (suc m) s (omega arith))

-- `strncpy` against a reference: the text up to its NUL, filled up with NULs to `n` bytes, or cut to
-- them, over the front of the buffer.
pub strncpy-take :
    (n : ℕ) (src dst : Bytes)
    → n ≤ length dst
    → strncpy n src dst ≡ some (take n (c_str src ++ replicate n 0) ++ drop n dst)
unfolding strncpy c_str
strncpy-take zero src dst h = refl
strncpy-take (suc n) src [] h = absurd (omega arith)
strncpy-take (suc n) [] (d ∷ dst) h = ground (arith, strncpy-take n [] dst (omega arith))
strncpy-take (suc n) (c ∷ src) (d ∷ dst) h = elim (Bool-cases (c == 0)) [
  | inl ends ↦ rw ends (ground (arith, strncpy-take n [] dst (omega arith)))
  | inr goes ↦ rw goes (
      ground
        (arith, strncpy-take n src dst (omega arith), take-padding n n (c_str src) (omega arith)))
]

-- The array in the middle of the loop of `ecall_pointer_count`, which goes down.
record Counted (count i : ℕ) (arr out : List ℕ) : Type 0 where
  size : length out ≡ length arr
  turned : (j : ℕ) → i ≤ j → j < count → get_elem? out j ≡ some (count - 1 - j)
  front : (j : ℕ) → j < i → get_elem? out j ≡ get_elem? arr j
  behind : (j : ℕ) → count ≤ j → get_elem? out j ≡ get_elem? arr j

length-take : (n : ℕ) (s : Bytes) → n ≤ length s → length (take n s) ≡ n
length-take zero s h = refl
length-take (suc n) [] h = absurd (omega arith)
length-take (suc n) (c ∷ s) h = ap suc (length-take n s (omega arith))

abbrev at_most : ℕ → ℕ → ℕ
at_most limit n = if ltb limit n then limit else n

-- `ecall_pointer_user_check`, on the first `sz` bytes of a buffer outside of the enclave: it takes
-- the checksum of at most 100 of them, returns their number, and writes "SGX_SUCCESS" with its NUL
-- over the front, or as much of it as there are bytes, and nothing behind.
pub ecall_pointer_user_check_lem :
    (val : Bytes) (sz : ℕ)
    → sz ≤ length val
    → let len = at_most 100 sz in
      let n = at_most 12 len in
      ecall_pointer_user_check true val sz
      ≡ some (record {
        val = take n sgx_success ++ drop n val;
        len = len;
        sum = checksum_internal (take len val);
      })
unfolding ecall_pointer_user_check
ecall_pointer_user_check_lem val sz h =
    let len = at_most 100 sz in
    let n = at_most 12 len in
    let n_len : n ≤ len = ground arith in
    let n_twelve : n ≤ 12 = ground arith in
    let len_sz : len ≤ sz = ground arith in
    let room : leb len (length val) ≡ true = ground arith in
    let size = length-take n sgx_success n_twelve in
    let written : overwrite (take n sgx_success) val ≡ some (take n sgx_success ++ drop n val) =
      overwrite-drop (take n sgx_success) val (omega (arith, size))
      ∙ ap (λ m. some (take n sgx_success ++ drop m val)) size in
    rw (room, written) refl

-- Where the code that passes the pointers does what the attributes say, the application's memory is
-- outside of the enclave, and the copies are within, no assert fails, in the enclave, in the ocalls
-- or in the application.
pub edger8r_pointer_attributes_passes :
    (bridge : Bridge) → BridgeLaws bridge → edger8r_pointer_attributes bridge true true ≡ some tt
unfolding edger8r_pointer_attributes ecall_pointer_user_check ecall_pointer_in ecall_pointer_out
    ecall_pointer_in_out ocall_pointer_attr ocall_pointer_user_check ocall_pointer_in
    ocall_pointer_out ocall_pointer_in_out ecall_pointer_string ecall_pointer_string_const
    ecall_pointer_size ecall_pointer_isptr_readonly ecall_pointer_count count_loop strncpy overwrite
    strcmp_eq c_str all_equal
edger8r_pointer_attributes_passes bridge laws =
    simp (laws.user_check-run, laws.copied_in-run, laws.copied_out-run, laws.copied_in_out-run)
