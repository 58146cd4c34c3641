-- ===== src/Edger8r/Pointers.antt =====
-- App/Edger8rSyntax/Pointers.cpp and Enclave/Edger8rSyntax/Pointers.cpp: pointers as parameters. An
-- `int` behind a pointer is a list of one number.
use seccap_sgx_bank.Base.{
  ℕ, zero, suc, ◌+◌, ◌-◌, ◌*◌, ◌%◌, ◌^◌, Bool, ◌&&◌, Option, none, some, List, [], ◌∷◌, ◌++◌, ltb,
  leb, ◌==◌, if◌then◌else◌, bytes_eq, length, set, take, replicate, Bytes,
}
use mathlib.Core.Option
use seccap_sgx_bank.CLib.{c_str, strcmp_eq, overwrite}
use seccap_sgx_bank.Server.{codes}
use seccap_sgx_bank.Edger8r.{Bridge, ◌>>=◌, ◌>>◌, assert}
use seccap_sgx_bank.Edger8r.Arrays.{all_equal}

-- `strncpy(dst, src, n)`; `none` is a write outside of `dst`.
unfoldable pub strncpy : ℕ → Bytes → Bytes → Option Bytes
strncpy zero src dst = some dst
strncpy (suc n) src [] = none
strncpy (suc n) [] (d ∷ dst) = Option.map (◌∷◌ 0) (strncpy n [] dst)
strncpy (suc n) (c ∷ src) (d ∷ dst) =
    let stopped = Option.map (◌∷◌ 0) (strncpy n [] dst) in
    let copied = Option.map (◌∷◌ c) (strncpy n src dst) in if c == 0 then stopped else copied

-- A signed number of `w` bits as a pattern of 32.
abbrev sign_extend : ℕ → ℕ → ℕ
sign_extend w v = if ltb v (2 ^ (w - 1)) then v else 2 ^ 32 - 2 ^ w + v

-- The summing loop of `checksum_internal`, over the bytes that are left.
unfoldable pub checksum_loop : ℕ → Bytes → ℕ
checksum_loop sum [] = sum
checksum_loop sum (c ∷ []) = (sum + sign_extend 8 c) % 2 ^ 32
checksum_loop sum (lo ∷ hi ∷ buf) =
    checksum_loop ((sum + sign_extend 16 (lo + 256 * hi)) % 2 ^ 32) buf

unfoldable pub checksum_internal : Bytes → ℕ
unfolding checksum_loop
checksum_internal buf = 2 ^ 32 - 1 - checksum_loop 0 buf

abbrev pub sgx_success : Bytes
sgx_success = codes "SGX_SUCCESS" ++ 0 ∷ []

-- What `ecall_pointer_user_check` leaves, returns and prints.
pub record Checked : Type 0 where
  pub val : Bytes
  pub len : ℕ
  pub sum : ℕ

unfoldable pub ecall_pointer_user_check : Bool → Bytes → ℕ → Option Checked
unfolding checksum_internal overwrite
ecall_pointer_user_check outside val sz =
    let len = if ltb 100 sz then 100 else sz in
    let written = overwrite (take (if ltb 12 len then 12 else len) sgx_success) val in
    if outside
    then (if leb len (length val)
        then Option.map (λ v. record { val = v; len = len; sum = checksum_internal (take len val) })
            written
        else none)
    else none

-- `within` is what `sgx_is_within_enclave` answers of the copy.
unfoldable pub ecall_pointer_in : Bool → List ℕ → Option (List ℕ)
ecall_pointer_in within val = if within then some (1234 ∷ []) else none

unfoldable pub ecall_pointer_out : Bool → List ℕ → Option (List ℕ)
ecall_pointer_out within val =
    if within then (if bytes_eq val (0 ∷ []) then some (1234 ∷ []) else none) else none

unfoldable pub ecall_pointer_in_out : Bool → List ℕ → Option (List ℕ)
ecall_pointer_in_out within val = if within then some (1234 ∷ []) else none

-- The ocalls of the application.
unfoldable pub ocall_pointer_user_check : List ℕ → Option (List ℕ)
ocall_pointer_user_check val = some val

unfoldable pub ocall_pointer_in : List ℕ → Option (List ℕ)
ocall_pointer_in val = some (1234 ∷ [])

unfoldable pub ocall_pointer_out : List ℕ → Option (List ℕ)
ocall_pointer_out val = some (1234 ∷ [])

unfoldable pub ocall_pointer_in_out : List ℕ → Option (List ℕ)
ocall_pointer_in_out val = some (1234 ∷ [])

-- `ocall_pointer_attr`: the bridge takes the buffers of the enclave to the ocalls.
unfoldable pub ocall_pointer_attr : Bridge → Option (Unit {0})
unfolding ocall_pointer_user_check ocall_pointer_in ocall_pointer_out ocall_pointer_in_out
ocall_pointer_attr bridge = do
  bridge.user_check ocall_pointer_user_check (0 ∷ [])
  val ← bridge.copied_in 1 ocall_pointer_in (0 ∷ [])
  assert (bytes_eq val (0 ∷ []))
  val ← bridge.copied_out 1 ocall_pointer_out (0 ∷ [])
  assert (bytes_eq val (1234 ∷ []))
  val ← bridge.copied_in_out 1 ocall_pointer_in_out (0 ∷ [])
  assert (bytes_eq val (1234 ∷ []))

abbrev pub countdown_text : Bytes
countdown_text = codes "0987654321"

unfoldable pub ecall_pointer_string : Bytes → Option Bytes
unfolding strncpy c_str
ecall_pointer_string str = strncpy (length (c_str str)) countdown_text str

-- The string is copied into an array of the enclave, and is not changed.
unfoldable pub ecall_pointer_string_const : Bytes → Option Bytes
unfolding strncpy c_str
ecall_pointer_string_const str =
    let n = length (c_str str) in Option.map (λ temp. str) (strncpy n str (replicate n 0))

unfoldable pub ecall_pointer_size : ℕ → Bytes → Option Bytes
unfolding strncpy
ecall_pointer_size len ptr = strncpy len countdown_text ptr

unfoldable pub ecall_pointer_isptr_readonly : ℕ → Bytes → Option Bytes
unfolding strncpy
ecall_pointer_isptr_readonly len buf = strncpy len countdown_text buf

-- The loop from `i - 1` down to 0; `none` is a write outside of `arr`.
unfoldable pub count_loop : ℕ → ℕ → List ℕ → Option (List ℕ)
count_loop count zero arr = some arr
count_loop count (suc i) arr =
    let rest = count_loop count i (set arr i (count - 1 - i)) in
    if ltb i (length arr) then rest else none

unfoldable pub ecall_pointer_count : ℕ → List ℕ → Option (List ℕ)
unfolding count_loop
ecall_pointer_count count arr = count_loop count count arr

-- The values that the application passes.
abbrev memory : Bytes
memory = replicate 128 14

abbrev digits_text : Bytes
digits_text = codes "1234567890" ++ 0 ∷ []

-- `strlen(str) == 10 && memcmp(str, text, strlen(str)) == 0`
abbrev is_text : Bytes → Bytes → Bool
is_text text str = length (c_str str) == 10 && bytes_eq (take 10 str) text

unfoldable pub edger8r_pointer_attributes : Bridge → Bool → Bool → Option (Unit {0})
unfolding ecall_pointer_user_check ecall_pointer_in ecall_pointer_out ecall_pointer_in_out
    ocall_pointer_attr ecall_pointer_string ecall_pointer_string_const ecall_pointer_size
    ecall_pointer_isptr_readonly ecall_pointer_count strcmp_eq c_str all_equal
edger8r_pointer_attributes bridge outside within = do
  c ←
      bridge.user_check
        (λ val. Option.map (λ (r : Checked). r.val) (ecall_pointer_user_check outside val 128))
        memory
  assert (strcmp_eq c (codes "SGX_SUCCESS"))
  val ← bridge.copied_in 1 (ecall_pointer_in within) (0 ∷ [])
  assert (bytes_eq val (0 ∷ []))
  val ← bridge.copied_out 1 (ecall_pointer_out within) (0 ∷ [])
  assert (bytes_eq val (1234 ∷ []))
  val ← bridge.copied_in_out 1 (ecall_pointer_in_out within) (0 ∷ [])
  assert (bytes_eq val (1234 ∷ []))
  ocall_pointer_attr bridge
  str1 ← bridge.copied_in_out (length (c_str digits_text) + 1) ecall_pointer_string digits_text
  assert (is_text countdown_text str1)
  str2 ← bridge.copied_in (length (c_str digits_text) + 1) ecall_pointer_string_const digits_text
  assert (is_text (codes "1234567890") str2)
  str3 ← bridge.copied_in_out 10 (ecall_pointer_size 10) digits_text
  assert (is_text countdown_text str3)
  str4 ← bridge.copied_in 10 (ecall_pointer_isptr_readonly 10) digits_text
  assert (is_text (codes "1234567890") str4)
  arr ←
      bridge.copied_in_out 10 (ecall_pointer_count 10) (0 ∷ 1 ∷ 2 ∷ 3 ∷ 4 ∷ 5 ∷ 6 ∷ 7 ∷ 8 ∷ 9 ∷ [])
  assert (all_equal (λ i. 9 - i) 10 0 arr)
