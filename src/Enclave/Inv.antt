-- ===== src/Enclave/Inv.antt =====
-- The enclave's state stands for a bank, and the host's file holds its accounts.
use seccap_sgx_bank.Base.{
  ℕ, ◌<◌, ◌≡◌, ◌≢◌, ◌⊎◌, inr, refl, ap, true, Option, none, some, List, [], ◌∷◌, ◌++◌, length,
  length-append, get_elem?, drop, All, arith, Bytes,
}
use seccap_sgx_bank.CLib.{u16_mod, c_str}
use seccap_sgx_bank.CLib.Text.{IsText}
use seccap_sgx_bank.UserTypes.{process_success}
use seccap_sgx_bank.Account.{Account}
use seccap_sgx_bank.Bank.{Bank}
use seccap_sgx_bank.Sgx.{Sgx, SgxLaws}
use seccap_sgx_bank.Sealing
use seccap_sgx_bank.Sealing.RoundTrip.{IsSealable, Holds, after_sealing}
use seccap_sgx_bank.World.{World, DealManager, Line, ok}
use seccap_sgx_bank.DealManager.{account_list_store_storage}
use seccap_sgx_bank.DealManager.Marshal.{encode, encode_all, length-encode}
use seccap_sgx_bank.DealManager.Parse.{IsStorable}
use seccap_sgx_bank.DealManager.Pointers.{Shows}
use seccap_sgx_bank.DealManager.Storage.{All-IsMade, store_storage-Stored}

-- No pointer is listed twice.
abbrev pub Distinct : List ℕ → Type 0
Distinct [] = Unit
Distinct (p ∷ ps) = All (λ q. p ≢ q) ps × Distinct ps

-- The current account is the one at that position of the list.
abbrev pub PointsAt : List ℕ → Option ℕ → Option ℕ → Type 0
PointsAt ps none none = Unit
PointsAt ps (some i) (some p) = get_elem? ps i ≡ some p
PointsAt ps _ _ = ⊥

module _ (sgx : Sgx) where
  -- The lines of the accounts fit 16 bits, and so does their sealed form.
  pub record Fits (accounts : List Account) : Type 0 where
    pub plain_fits : length (encode_all accounts) < u16_mod
    pub sealed_fits : Sgx.calc_sealed_data_size sgx 0 (length (encode_all accounts)) < u16_mod

  -- The enclave's state stands for the bank `b`, and the host lets the file be written.
  pub record Live (b : Bank) (w : World) : Type 0 where
    pub manager : DealManager
    pub manager_is : w.deal_manager ≡ some manager
    pub sealing_is : manager.sealing_unsealing ≡ Sealing.make
    pub shows : Shows w.heap manager.account_list b.accounts
    pub distinct : Distinct manager.account_list
    pub current_is : PointsAt manager.account_list b.current manager.current_account
    pub storable : All IsStorable b.accounts
    pub texts : All (λ a. IsText a.password) b.accounts
    pub fits : Fits b.accounts
    pub can_write : w.io.can_write ≡ true
    pub write_succeeds : w.io.write_succeeds ≡ true
    pub close_succeeds : w.io.close_succeeds ≡ true
    pub old_file : Bytes
    pub file_is : w.file ≡ some old_file

  -- The file unseals to the lines of exactly these accounts; with no account it is empty.
  abbrev pub Synced : List Account → Option Bytes → Type 0
  Synced accounts file =
      ((accounts ≡ []) × (file ≡ some []))
      ⊎ ((blob : Bytes) × (rest : Bytes) × (accounts ≢ [])
          × (file ≡ some (blob ++ rest))
          × (0 < length blob)
          × Holds sgx Sealing.make (encode_all accounts) blob)

  pub record Inv (b : Bank) (w : World) : Type 0 where
    pub live : Live b w
    pub synced : Synced b.accounts w.file

  pub IsSealable-make :
      (accounts : List Account)
      → accounts ≢ []
      → Fits accounts
      → IsSealable sgx Sealing.make (encode_all accounts)
  unfolding c_str
  IsSealable-make [] ne f = absurd (ne refl)
  IsSealable-make (a ∷ accounts) ne f = record {
    nonempty = omega (arith, length-encode a, length-append (encode a) (encode_all accounts));
    fits = f.sealed_fits;
    mac_text = tt;
  }

  Live-file :
      (b : Bank) (lines : List Line) (text : Bytes) (w : World)
      → Live b w
      → Live b (record (after_sealing sgx w lines) { file = some text })
  Live-file b lines text w l = record {
    manager = l.manager;
    manager_is = l.manager_is;
    sealing_is = l.sealing_is;
    shows = l.shows;
    distinct = l.distinct;
    current_is = l.current_is;
    storable = l.storable;
    texts = l.texts;
    fits = l.fits;
    can_write = l.can_write;
    write_succeeds = l.write_succeeds;
    close_succeeds = l.close_succeeds;
    old_file = text;
    file_is = refl;
  }

  -- Printing changes nothing that the invariant speaks of.
  pub Inv-console :
      (b : Bank) (lines : List Line) (w : World) → Inv b w → Inv b (record w { console = lines })
  Inv-console b lines w v =
      let l = v.live in
      record {
        live = record {
          manager = l.manager;
          manager_is = l.manager_is;
          sealing_is = l.sealing_is;
          shows = l.shows;
          distinct = l.distinct;
          current_is = l.current_is;
          storable = l.storable;
          texts = l.texts;
          fits = l.fits;
          can_write = l.can_write;
          write_succeeds = l.write_succeeds;
          close_succeeds = l.close_succeeds;
          old_file = l.old_file;
          file_is = l.file_is;
        };
        synced = v.synced;
      }

  module _ (laws : SgxLaws sgx) where
    -- Storing the accounts of a live state succeeds, and brings the file up to date.
    pub store_storage-Inv :
        (b : Bank) (w : World)
        → b.accounts ≢ []
        → Live b w
        → (w' : World) × (account_list_store_storage sgx w ≡ (ok process_success, w'))
          × (w'.heap ≡ w.heap)
          × (w'.deal_manager ≡ w.deal_manager)
          × Inv b w'
    store_storage-Inv b w ne l =
        let fits = l.fits in
        let v = IsSealable-make b.accounts ne fits in
        let covers = λ (mac : ℕ).
          SgxLaws.txt-lt-calc laws mac (length (encode_all b.accounts))
            (omega (arith, fits.plain_fits)) in
        let (blob, w', run, (lines, is, n, holds)) =
          store_storage-Stored sgx laws l.manager b.accounts l.old_file w l.manager_is l.shows
            (All-IsMade b.accounts l.storable) fits.plain_fits (rw (l.sealing_is) v) l.can_write
            l.write_succeeds l.close_succeeds l.file_is in
        (
          w',
          run,
          ap (λ (u : World). u.heap) is,
          ap (λ (u : World). u.deal_manager) is,
          record {
            live = rw is (Live-file b lines _ w l);
            synced = inr (
              blob,
              drop (length blob) l.old_file,
              ne,
              ap (λ (u : World). u.file) is,
              omega (arith, n, covers (length (c_str l.manager.sealing_unsealing.add_mac_txt))),
              rw (l.sealing_is) at holds,
            );
          },
        )
