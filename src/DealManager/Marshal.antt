-- ===== src/DealManager/Marshal.antt =====
-- `AccountListStoreStorage`'s pointer writes lay out the accounts one after the other, in a buffer
-- of exactly their size.
use seccap_sgx_bank.Base.{
  ℕ, ◌+◌, ◌<◌, ◌≡◌, refl, ap, List, [], ◌∷◌, ◌++◌, append_assoc, append-nil, length, length-append,
  replicate, All, arith, Bytes,
}
use seccap_sgx_bank.CLib.{u64_mod, le_bytes}
use seccap_sgx_bank.CLib.Memory.{memcpy-replicate, add_byte-replicate}
use seccap_sgx_bank.CLib.LittleEndian.{length-le_bytes}
use seccap_sgx_bank.Account.{Account}
use seccap_sgx_bank.Account
use seccap_sgx_bank.World.{World, ok}
use seccap_sgx_bank.DealManager.{
  all_account_data_size, marshal_account, marshal_all, Cursor, copy_out, add_out,
}

-- The line of an account: "bytes: name,password,deposits", and a newline.
abbrev pub encode : Account → Bytes
encode a = a.name ++ (b',' ∷ (a.password ++ (b',' ∷ (le_bytes 8 a.deposits ++ (b'\n' ∷ [])))))

abbrev pub encode_all : List Account → Bytes
encode_all [] = []
encode_all (a ∷ accounts) = encode a ++ encode_all accounts

pub length-encode : (a : Account) → length (encode a) ≡ length a.name + length a.password + 11
length-encode a =
    let tail = le_bytes 8 a.deposits ++ (b'\n' ∷ []) in
    omega (
      arith,
      length-append a.name (b',' ∷ (a.password ++ (b',' ∷ tail))),
      length-append a.password (b',' ∷ tail),
      length-append (le_bytes 8 a.deposits) (b'\n' ∷ []),
      length-le_bytes 8 a.deposits,
    )

-- A cursor behind what is done, in a buffer whose `k` last bytes are still zero.
abbrev behind : Bytes → ℕ → Cursor
behind done k = (length done, done ++ replicate k 0)

copy_out-behind :
    (src done : Bytes) (m k : ℕ) (w : World)
    → m ≡ length src + k
    → copy_out src (behind done m) w ≡ (ok (behind (done ++ src) k), w)
unfolding copy_out
copy_out-behind src done m k w e =
    rw (memcpy-replicate done src (length done) m k refl e, length-append done src)

add_out-behind :
    (c : ℕ) (done : Bytes) (m k : ℕ) (w : World)
    → c < 256
    → m ≡ 1 + k
    → add_out c (behind done m) w ≡ (ok (behind (done ++ c ∷ []) k), w)
unfolding add_out
add_out-behind c done m k w h e =
    rw (add_byte-replicate done c (length done) m k h refl e, length-append done (c ∷ []))

encode_assoc :
    (a : Account) (done : Bytes)
    → (((((done ++ a.name) ++ (b',' ∷ [])) ++ a.password) ++ (b',' ∷ [])) ++ le_bytes 8 a.deposits)
        ++ (b'\n' ∷ [])
      ≡ done ++ encode a
encode_assoc a done = simp append_assoc

marshal_account-behind :
    (a : Account) (done : Bytes) (m k : ℕ) (w : World)
    → m ≡ length a.name + length a.password + 11 + k
    → marshal_account a (behind done m) w ≡ (ok (behind (done ++ encode a) k), w)
unfolding marshal_account
marshal_account-behind a done m k w e =
    let p = length a.password in
    let d1 = done ++ a.name in
    let d2 = d1 ++ (b',' ∷ []) in
    let d3 = d2 ++ a.password in
    let d4 = d3 ++ (b',' ∷ []) in
    let d5 = d4 ++ le_bytes 8 a.deposits in
    ground (
      arith,
      copy_out-behind a.name done m (p + 11 + k) w,
      copy_out-behind (b',' ∷ []) d1 (p + 11 + k) (p + 10 + k) w,
      copy_out-behind a.password d2 (p + 10 + k) (10 + k) w,
      add_out-behind b',' d3 (10 + k) (9 + k) w,
      copy_out-behind (le_bytes 8 a.deposits) d4 (9 + k) (1 + k) w,
      length-le_bytes 8 a.deposits,
      add_out-behind b'\n' d5 (1 + k) k w,
      encode_assoc a done,
    )

marshal_all-behind :
    (accounts : List Account) (done : Bytes) (m k : ℕ) (w : World)
    → m ≡ length (encode_all accounts) + k
    → marshal_all accounts (behind done m) w ≡ (ok (behind (done ++ encode_all accounts) k), w)
unfolding marshal_all
marshal_all-behind [] done m k w e = let same : m ≡ k = omega arith in rw (same, append-nil done)
marshal_all-behind (a ∷ accounts) done m k w e =
    let n = length (encode_all accounts) in
    ground (
      arith,
      length-encode a,
      length-append (encode a) (encode_all accounts),
      marshal_account-behind a done m (n + k) w,
      marshal_all-behind accounts (done ++ encode a) (n + k) k w,
      append_assoc done (encode a) (encode_all accounts),
    )

-- Every account carries the size that its constructor computed.
abbrev pub IsMade : Account → Type 0
IsMade a = a ≡ Account.make a.name a.password a.deposits

all_account_data_size-encode :
    (accounts : List Account) (size : ℕ)
    → All IsMade accounts
    → size + length (encode_all accounts) < u64_mod
    → all_account_data_size accounts size ≡ size + length (encode_all accounts)
unfolding all_account_data_size
all_account_data_size-encode [] size made h = omega arith
all_account_data_size-encode (a ∷ accounts) size made h = ground (
  arith,
  length-encode a,
  length-append (encode a) (encode_all accounts),
  all_account_data_size-encode accounts (size + length (encode a)) made.1,
  ap (λ (b : Account). b.account_data_size) made.0,
)

-- For accounts whose lines fill less than 2 ^ 64 bytes: the buffer is allocated at the size of the
-- lines, all writes stay inside of it, they leave `data_ptr` at its end, so that the assertion
-- holds, and the buffer then holds the lines "name,password,deposits", one after the other.
pub marshal_all-encode :
    (accounts : List Account) (w : World)
    → All IsMade accounts
    → length (encode_all accounts) < u64_mod
    → let size = all_account_data_size accounts 0 in
      (size ≡ length (encode_all accounts))
      × (marshal_all accounts (0, replicate size 0) w ≡ (ok (size, encode_all accounts), w))
marshal_all-encode accounts w made h =
    let size = all_account_data_size-encode accounts 0 made (omega arith) in
    ground (
      arith,
      size,
      marshal_all-behind accounts [] (length (encode_all accounts)) 0 w,
      append-nil (encode_all accounts),
    )
