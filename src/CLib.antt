-- ===== src/CLib.antt =====
-- What the source uses of the C library and of the machine: 64-bit little-endian words, copies
-- into a buffer, NUL-terminated strings, `%ld` and `atoi`. A C string is given by its bytes
-- before the NUL, so the end of a list is read as the NUL.
pub mod Memory
pub mod LittleEndian
pub mod Decimal
pub mod Text
use seccap_sgx_bank.Base.{
  ℕ, zero, suc, ◌+◌, ◌-◌, ◌*◌, ◌/◌, ◌%◌, ◌^◌, Bool, true, false, ◌&&◌, ◌||◌, Option, none, some, [],
  ◌∷◌, ◌++◌, ltb, leb, ◌==◌, if◌then◌else◌, bytes_eq, get_elem?, Bytes,
}
use mathlib.Core.Option

abbrev pub u16_mod : ℕ
u16_mod = 2 ^ 16

abbrev pub u64_mod : ℕ
u64_mod = 2 ^ 64

-- The low `n` bytes of a word, least significant first, as `memcpy` from `&deposits` sees them.
unfoldable pub le_bytes : ℕ → ℕ → Bytes
le_bytes zero v = []
le_bytes (suc n) v = (v % 256) ∷ le_bytes n (v / 256)

-- A word of `n` bytes read through a pointer, and what lies behind it; `none` past the buffer.
unfoldable pub read_le : ℕ → Bytes → Option (ℕ × Bytes)
read_le zero bs = some (0, bs)
read_le (suc n) [] = none
read_le (suc n) (b ∷ bs) = Option.map (λ r. (b + 256 * r.0, r.1)) (read_le n bs)

-- `src` written over the front of `dst`; `none` if it does not fit.
unfoldable pub overwrite : Bytes → Bytes → Option Bytes
overwrite [] dst = some dst
overwrite (x ∷ src) [] = none
overwrite (x ∷ src) (_ ∷ dst) = Option.map (◌∷◌ x) (overwrite src dst)

-- `memcpy(dst + pos, src, src.size())`
unfoldable pub memcpy : ℕ → Bytes → Bytes → Option Bytes
unfolding overwrite
memcpy zero src dst = overwrite src dst
memcpy (suc pos) src [] = none
memcpy (suc pos) src (b ∷ dst) = Option.map (◌∷◌ b) (memcpy pos src dst)

-- `dst[pos] += c` on bytes
unfoldable pub add_byte : ℕ → ℕ → Bytes → Option Bytes
unfolding memcpy
add_byte pos c dst = elim (get_elem? dst pos) [
  | none ↦ none
  | some b ↦ memcpy pos (((b + c) % 256) ∷ []) dst
]

-- The C string at the front of a buffer.
unfoldable pub c_str : Bytes → Bytes
c_str [] = []
c_str (c ∷ cs) = if c == 0 then [] else c ∷ c_str cs

-- `strcmp(a, b) == 0`
unfoldable pub strcmp_eq : Bytes → Bytes → Bool
unfolding c_str bytes_eq
strcmp_eq a b = bytes_eq (c_str a) (c_str b)

-- `strncmp(a, b, n) == 0`
unfoldable pub strncmp_eq : Bytes → Bytes → ℕ → Bool
strncmp_eq a b zero = true
strncmp_eq [] [] (suc n) = true
strncmp_eq [] (y ∷ b) (suc n) = y == 0
strncmp_eq (x ∷ a) [] (suc n) = x == 0
strncmp_eq (x ∷ a) (y ∷ b) (suc n) = x == y && (x == 0 || strncmp_eq a b n)

-- The decimal digits of a number below 10 ^ fuel.
unfoldable pub digits : ℕ → ℕ → Bytes
digits zero n = []
digits (suc fuel) n =
    let front = digits fuel (n / 10) in
    if ltb n 10 then (n + b'0') ∷ [] else front ++ ((n % 10 + b'0') ∷ [])

-- `%ld` of a 64-bit pattern
unfoldable pub print_ld : ℕ → Bytes
unfolding digits
print_ld n = if ltb n (2 ^ 63) then digits 20 n else b'-' ∷ digits 20 (u64_mod - n)

abbrev pub is_digit : ℕ → Bool
is_digit c = leb b'0' c && leb c b'9'

abbrev pub is_space : ℕ → Bool
is_space c = c == b' ' || (leb 9 c && leb c 13)

unfoldable pub read_digits : ℕ → Bytes → ℕ
read_digits acc [] = acc
read_digits acc (c ∷ cs) =
    let rest = read_digits (acc * 10 + (c - b'0')) cs in if is_digit c then rest else acc

unfoldable pub skip_spaces : Bytes → Bytes
skip_spaces [] = []
skip_spaces (c ∷ cs) = if is_space c then skip_spaces cs else c ∷ cs

-- `(uint64_t)atoi(s)`, of a text after its spaces. C leaves the result open where the number does
-- not fit an `int`; it is the argument `open`.
atoi_signed : (Bytes → ℕ) → Bytes → ℕ
unfolding read_digits
atoi_signed open_result [] = 0
atoi_signed open_result (c ∷ cs) =
    if c == b'-'
    then (let m = read_digits 0 cs in
        if leb m (2 ^ 31) then (u64_mod - m) % u64_mod else open_result (c ∷ cs))
    else (let m = read_digits 0 (if c == b'+' then cs else c ∷ cs) in
        if ltb m (2 ^ 31) then m else open_result (c ∷ cs))

unfoldable pub atoi : (Bytes → ℕ) → Bytes → ℕ
unfolding atoi_signed skip_spaces
atoi open_result s = atoi_signed open_result (skip_spaces s)
