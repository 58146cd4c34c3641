-- ===== src/CLib/LittleEndian.antt =====
-- A word survives the way through its bytes.
use native.Mathlib.Nat.{pow-suc}
use seccap_sgx_bank.Base.{
  ℕ, zero, suc, ◌/◌, ◌%◌, ◌^◌, ◌*◌, ◌+◌, ◌<◌, ◌≡◌, refl, ap, some, ◌++◌, length, arith, Bytes,
}
use seccap_sgx_bank.CLib.{le_bytes, read_le}

pub length-le_bytes : (n v : ℕ) → length (le_bytes n v) ≡ n
unfolding le_bytes
length-le_bytes zero v = refl
length-le_bytes (suc n) v = ap suc (length-le_bytes n (v / 256))

pub read_le-le_bytes :
    (n v : ℕ) (rest : Bytes) → v < 256 ^ n → read_le n (le_bytes n v ++ rest) ≡ some (v, rest)
unfolding le_bytes read_le
read_le-le_bytes zero v rest h = let e : v ≡ 0 = omega arith in rw e
read_le-le_bytes (suc n) v rest h =
    let e : v % 256 + 256 * (v / 256) ≡ v = omega arith in
    rw (read_le-le_bytes n (v / 256) rest (omega (arith, pow-suc 256 n))) (rw e)
