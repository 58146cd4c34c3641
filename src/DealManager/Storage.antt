-- ===== src/DealManager/Storage.antt =====
-- The way of the account list to the host's file and, in a later run of the enclave, back.
use seccap_sgx_bank.Base.{
  ◌+◌, ◌%◌, ◌<◌, ◌≡◌, ◌≢◌, refl, true, none, some, List, [], ◌∷◌, ◌++◌, length, length-append,
  take-append, take-all, drop, replicate, All, arith, Bytes,
}
use seccap_sgx_bank.CLib.{u16_mod}
use seccap_sgx_bank.Account.{Account}
use seccap_sgx_bank.UserTypes.{process_success}
use seccap_sgx_bank.Sgx.{Sgx, SgxLaws}
use seccap_sgx_bank.Host.{
  ocall_account_list_store, ocall_get_sealed_account_list_size, ocall_get_sealed_account_list,
}
use seccap_sgx_bank.Sealing.RoundTrip.{
  IsSealable, Holds, after_sealing, sealed_size, unsealing-sealing,
}
use seccap_sgx_bank.World.{World, DealManager, Line, ok}
use seccap_sgx_bank.DealManager.{account_list_store_storage, account_list_setting}
use seccap_sgx_bank.DealManager.Marshal.{encode_all, IsMade, marshal_all-encode}
use seccap_sgx_bank.DealManager.Parse.{IsStorable, with_accounts, parse_loop-encode_all}
use seccap_sgx_bank.DealManager.Pointers.{Shows, load_all-Shows}

-- The file exists and the host lets it be written.
pub record IsWritable (w : World) : Type 0 where
  pub can_write : w.io.can_write ≡ true
  pub write_succeeds : w.io.write_succeeds ≡ true
  pub close_succeeds : w.io.close_succeeds ≡ true
  pub exists : w.file ≢ none

pub record IsReadable (w : World) : Type 0 where
  pub can_read : w.io.can_read ≡ true
  pub can_seek : w.io.can_seek ≡ true

pub All-IsMade : (accounts : List Account) → All IsStorable accounts → All IsMade accounts
All-IsMade [] h = tt
All-IsMade (a ∷ accounts) h = (let s = h.0 in s.made, All-IsMade accounts h.1)

ocall_account_list_store-over :
    (blob old : Bytes) (w : World)
    → w.io.can_write ≡ true
    → w.io.write_succeeds ≡ true
    → w.io.close_succeeds ≡ true
    → w.file ≡ some old
    → ocall_account_list_store blob w
      ≡ (ok tt, record w { file = some (blob ++ drop (length blob) old) })
unfolding ocall_account_list_store
ocall_account_list_store-over blob old w c s k e = ground arith

-- Reading back a file that is not empty gives the whole file.
ocall_get-file :
    (bytes : Bytes) (w : World)
    → IsReadable w
    → w.file ≡ some bytes
    → 0 < length bytes
    → (ocall_get_sealed_account_list_size w ≡ (ok (length bytes), w))
      × (ocall_get_sealed_account_list (length bytes) w ≡ (ok bytes, w))
unfolding ocall_get_sealed_account_list_size ocall_get_sealed_account_list
ocall_get-file bytes w r e h =
    let can_read = r.can_read in
    let can_seek = r.can_seek in
    (ground arith, ground (arith, take-append bytes (replicate (length bytes) 0)))

module _ (sgx : Sgx) (laws : SgxLaws sgx) where
  -- What the file holds after the accounts have been stored over its old contents.
  abbrev pub Stored : DealManager → List Account → Bytes → Bytes → World → World → Type 0
  Stored m accounts old blob w w' =
      (lines : List Line) × (w'
        ≡ record (after_sealing sgx w lines) { file = some (blob ++ drop (length blob) old) })
      × (length blob ≡ sealed_size sgx m.sealing_unsealing (encode_all accounts))
      × Holds sgx m.sealing_unsealing (encode_all accounts) blob

  -- `AccountListStoreStorage` up to its ocall, which makes `left blob` of the file.
  pub store_storage-run :
      (m : DealManager) (accounts : List Account) (left : Bytes → Bytes) (w : World)
      → w.deal_manager ≡ some m
      → Shows w.heap m.account_list accounts
      → All IsMade accounts
      → length (encode_all accounts) < u16_mod
      → IsSealable sgx m.sealing_unsealing (encode_all accounts)
      → ((blob : Bytes) (u : World)
          → u.io ≡ w.io
          → u.file ≡ w.file
          → ocall_account_list_store blob u ≡ (ok tt, record u { file = some (left blob) }))
      → (blob : Bytes) × (lines : List Line) × (account_list_store_storage sgx w
          ≡ (ok process_success, record (after_sealing sgx w lines) { file = some (left blob) }))
        × (length blob ≡ sealed_size sgx m.sealing_unsealing (encode_all accounts))
        × Holds sgx m.sealing_unsealing (encode_all accounts) blob
  unfolding account_list_store_storage
  store_storage-run m accounts left w e shows made short v host =
      let plain = encode_all accounts in
      let (sized, marshalled) = marshal_all-encode accounts w made (omega arith) in
      let (blob, lines, sealed, n, holds) =
        unsealing-sealing sgx laws m.sealing_unsealing plain 10000 w v in
      let stored = host blob (after_sealing sgx w lines) refl refl in
      (
        blob,
        lines,
        ground (
          arith,
          load_all-Shows m.account_list accounts w shows,
          sized,
          marshalled,
          sealed,
          stored,
          take-all blob (length blob) (omega arith),
        ),
        n,
        holds,
      )

  -- `AccountListStoreStorage` succeeds, changes nothing of the state but the file, the random draw
  -- and the console, and the file then begins with a blob that unseals to the lines of exactly the
  -- listed accounts; behind it stands what the old file had there. This holds for a manager that
  -- lists these accounts, at least one, all of them as constructed, whose lines fit 16 bits, also
  -- when sealed, over a file that exists and can be written.
  pub store_storage-Stored :
      (m : DealManager) (accounts : List Account) (old : Bytes) (w : World)
      → w.deal_manager ≡ some m
      → Shows w.heap m.account_list accounts
      → All IsMade accounts
      → length (encode_all accounts) < u16_mod
      → IsSealable sgx m.sealing_unsealing (encode_all accounts)
      → w.io.can_write ≡ true
      → w.io.write_succeeds ≡ true
      → w.io.close_succeeds ≡ true
      → w.file ≡ some old
      → (blob : Bytes) × (w' : World) × (account_list_store_storage sgx w
          ≡ (ok process_success, w'))
        × Stored m accounts old blob w w'
  store_storage-Stored m accounts old w e shows made short v c s k file =
      let (blob, lines, run, n, holds) =
        store_storage-run m accounts (λ blob. blob ++ drop (length blob) old) w e shows made short v
          (λ blob u io same.
            ocall_account_list_store-over blob old u (rw io c) (rw io s) (rw io k)
              (rw same file)) in
      (
        blob,
        record (after_sealing sgx w lines) { file = some (blob ++ drop (length blob) old) },
        run,
        (lines, refl, n, holds),
      )

  -- `AccountListSetting` on a file that begins with a blob of these accounts' lines, whatever
  -- stands behind the blob, appends exactly these accounts to the manager's list. This holds for
  -- accounts that a line can stand for (no comma in names and passwords, a 64-bit balance), at least
  -- one, whose lines fit 16 bits, and a file that can be read.
  pub setting-Holds :
      (m : DealManager) (a : Account) (accounts : List Account) (blob rest : Bytes) (w : World)
      → w.deal_manager ≡ some m
      → All IsStorable (a ∷ accounts)
      → length (encode_all (a ∷ accounts)) < u16_mod
      → IsReadable w
      → w.file ≡ some (blob ++ rest)
      → 0 < length blob
      → Holds sgx m.sealing_unsealing (encode_all (a ∷ accounts)) blob
      → account_list_setting sgx w ≡ (ok tt, with_accounts m (a ∷ accounts) w)
  unfolding account_list_setting
  setting-Holds m a accounts blob rest w e s short r file n holds =
      let plain = encode_all (a ∷ accounts) in
      let cut : length plain % u16_mod ≡ length plain = omega arith in
      let (sized, read) =
        ocall_get-file (blob ++ rest) w r file (omega (arith, length-append blob rest)) in
      ground (
        arith,
        sized,
        read,
        holds rest w,
        cut,
        length-append blob rest,
        parse_loop-encode_all accounts (length plain + 1) (length plain) m a w s,
      )
