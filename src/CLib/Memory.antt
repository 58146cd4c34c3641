-- ===== src/CLib/Memory.antt =====
-- Copies into a buffer whose tail is still the zeros that `calloc` left.
use seccap_sgx_bank.Base.{
  ℕ, zero, suc, ◌+◌, ◌%◌, ◌<◌, ◌≡◌, refl, some, [], ◌∷◌, ◌++◌, append_assoc, length, replicate,
  get_elem?, arith, Bytes,
}
use seccap_sgx_bank.CLib.{overwrite, memcpy, add_byte}

overwrite-replicate :
    (src : Bytes) (m k : ℕ)
    → m ≡ length src + k
    → overwrite src (replicate m 0) ≡ some (src ++ replicate k 0)
unfolding overwrite
overwrite-replicate [] m k e = let e' : m ≡ k = omega arith in rw e'
overwrite-replicate (x ∷ src) zero k e = absurd (omega arith)
overwrite-replicate (x ∷ src) (suc m) k e = rw (overwrite-replicate src m k (omega arith))

memcpy-length :
    (done src : Bytes) (m k : ℕ)
    → m ≡ length src + k
    → memcpy (length done) src (done ++ replicate m 0) ≡ some (done ++ (src ++ replicate k 0))
unfolding memcpy
memcpy-length [] src m k e = overwrite-replicate src m k e
memcpy-length (b ∷ done) src m k e = rw (memcpy-length done src m k e)

-- A copy to the end of the part written so far.
pub memcpy-replicate :
    (done src : Bytes) (p m k : ℕ)
    → p ≡ length done
    → m ≡ length src + k
    → memcpy p src (done ++ replicate m 0) ≡ some ((done ++ src) ++ replicate k 0)
memcpy-replicate done src p m k at e =
    rw (at, append_assoc done src (replicate k 0)) (memcpy-length done src m k e)

get_elem?-replicate :
    (done : Bytes) (m : ℕ) → get_elem? (done ++ replicate (suc m) 0) (length done) ≡ some 0
get_elem?-replicate [] m = refl
get_elem?-replicate (b ∷ done) m = get_elem?-replicate done m

-- `*data_ptr += c` on a byte that is still zero stores `c`.
pub add_byte-replicate :
    (done : Bytes) (c p m k : ℕ)
    → c < 256
    → p ≡ length done
    → m ≡ 1 + k
    → add_byte p c (done ++ replicate m 0) ≡ some ((done ++ c ∷ []) ++ replicate k 0)
unfolding add_byte
add_byte-replicate done c p zero k h at e = absurd (omega arith)
add_byte-replicate done c p (suc m) k h at e =
    let byte : (0 + c) % 256 ≡ c = omega arith in
    rw at (
      rw (get_elem?-replicate done m, add_byte)
        (rw byte (memcpy-replicate done (c ∷ []) (length done) (suc m) k refl e)))
