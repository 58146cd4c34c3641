-- ===== src/Enclave/Restart.antt =====
-- `ecallInitManager` in a later run of the enclave, on the file that an earlier run left.
use seccap_sgx_bank.Base.{
  ◌<◌, ◌≡◌, ◌≢◌, ◌⊎◌, inl, inr, refl, ap, subst, ◌∙◌, none, some, true, List, [], ◌∷◌, ◌++◌, length,
  arith, Bytes,
}
use seccap_sgx_bank.Account.{Account}
use seccap_sgx_bank.UserTypes.{process_success}
use seccap_sgx_bank.Bank.{Bank}
use seccap_sgx_bank.Sgx.{Sgx, SgxLaws}
use seccap_sgx_bank.Sealing
use seccap_sgx_bank.Sealing.RoundTrip.{Holds}
use seccap_sgx_bank.Host.{ocall_get_sealed_account_list_size}
use seccap_sgx_bank.World.{World, DealManager, Io, server_ready, ok}
use seccap_sgx_bank.DealManager.{account_list_setting}
use seccap_sgx_bank.DealManager
use seccap_sgx_bank.DealManager.Marshal.{encode_all}
use seccap_sgx_bank.DealManager.Parse.{with_account, with_accounts}
use seccap_sgx_bank.DealManager.Pointers.{Shows, Shows-push, with_accounts-Shows}
use seccap_sgx_bank.DealManager.Storage.{IsReadable, setting-Holds}
use seccap_sgx_bank.Enclave.{ecall_init_manager}
use seccap_sgx_bank.Enclave.Inv.{Distinct, Live, Inv}
use seccap_sgx_bank.Enclave.Login.{Shows-Distinct}

with_accounts-Distinct :
    (more : List Account) (m : DealManager) (accounts : List Account) (w : World)
    → Shows w.heap m.account_list accounts
    → Distinct m.account_list
    → (m' : DealManager) × ((with_accounts m more w).deal_manager ≡ some m')
      × Distinct m'.account_list
with_accounts-Distinct [] m accounts w h d = (m, refl, d)
with_accounts-Distinct (a ∷ more) m accounts w h d =
    with_accounts-Distinct more (record m { account_list = m.account_list ++ length w.heap ∷ [] })
      (accounts ++ a ∷ []) (with_account m a w) (Shows-push w.heap m.account_list accounts a h)
      (Shows-Distinct w.heap m.account_list accounts h d)

List-cases :
    (xs : List Account) → (xs ≡ []) ⊎ ((a : Account) × (rest : List Account) × (xs ≡ a ∷ rest))
List-cases [] = inl refl
List-cases (a ∷ rest) = inr (a, rest, refl)

-- The host lets the file be read and written.
pub record IsServing (w : World) : Type 0 where
  pub readable : IsReadable w
  pub can_write : w.io.can_write ≡ true
  pub write_succeeds : w.io.write_succeeds ≡ true
  pub close_succeeds : w.io.close_succeeds ≡ true

module _ (sgx : Sgx) (laws : SgxLaws sgx) where
  -- The bank with nobody served.
  abbrev pub closed : Bank → Bank
  closed b = record b { current = none }

  abbrev announced : World → World
  announced w = record w { console = w.console ++ server_ready ∷ [] }

  abbrev booted : World → World
  booted w = record w { deal_manager = some DealManager.make }

  init-empty :
      (b : Bank) (w w₀ : World)
      → Live sgx b w
      → b.accounts ≡ []
      → w.file ≡ some []
      → w₀.file ≡ w.file
      → IsServing w₀
      → (w' : World) × (ecall_init_manager sgx w₀ ≡ (ok process_success, w'))
        × Inv sgx (closed b) w'
  unfolding ecall_init_manager account_list_setting ocall_get_sealed_account_list_size
  init-empty b w w₀ l e file same s =
      let r = s.readable in
      let can_read = r.can_read in
      (
        announced (booted w₀),
        ground arith,
        record {
          live = record {
            manager = DealManager.make;
            manager_is = refl;
            sealing_is = refl;
            shows = rw e tt;
            distinct = tt;
            current_is = tt;
            storable = l.storable;
            texts = l.texts;
            fits = l.fits;
            can_write = s.can_write;
            write_succeeds = s.write_succeeds;
            close_succeeds = s.close_succeeds;
            old_file = [];
            file_is = same ∙ file;
          };
          synced = inl (e, same ∙ file);
        },
      )

  init-accounts :
      (b : Bank) (a : Account) (accounts : List Account) (blob rest : Bytes) (w w₀ : World)
      → Live sgx b w
      → b.accounts ≡ a ∷ accounts
      → b.accounts ≢ []
      → w.file ≡ some (blob ++ rest)
      → 0 < length blob
      → Holds sgx Sealing.make (encode_all b.accounts) blob
      → w₀.file ≡ w.file
      → IsServing w₀
      → (w' : World) × (ecall_init_manager sgx w₀ ≡ (ok process_success, w'))
        × Inv sgx (closed b) w'
  unfolding ecall_init_manager
  init-accounts b a accounts blob rest w w₀ l e ne file n holds same s =
      let w₁ = booted w₀ in
      let w₂ = with_accounts DealManager.make (a ∷ accounts) w₁ in
      let f = l.fits in
      let r = s.readable in
      let run =
        setting-Holds sgx laws DealManager.make a accounts blob rest w₁ refl (rw e at (l.storable))
          (rw e at (f.plain_fits)) (record { can_read = r.can_read; can_seek = r.can_seek })
          (same ∙ file) n (rw e at holds) in
      let (m, is, nobody, seals, shows, file', heap, io) =
        with_accounts-Shows (a ∷ accounts) DealManager.make [] w₁ tt in
      let (m', is', distinct) =
        with_accounts-Distinct (a ∷ accounts) DealManager.make [] w₁ tt tt in
      (
        announced w₂,
        ground (arith, run),
        record {
          live = record {
            manager = m;
            manager_is = is;
            sealing_is = seals;
            shows = rw e shows;
            distinct =
                (let agree : m' ≡ m = cc in
                  subst (λ (x : DealManager). Distinct x.account_list) agree distinct);
            current_is = rw nobody tt;
            storable = l.storable;
            texts = l.texts;
            fits = l.fits;
            can_write = ap (λ (i : Io). i.can_write) io ∙ s.can_write;
            write_succeeds = ap (λ (i : Io). i.write_succeeds) io ∙ s.write_succeeds;
            close_succeeds = ap (λ (i : Io). i.close_succeeds) io ∙ s.close_succeeds;
            old_file = blob ++ rest;
            file_is = file' ∙ same ∙ file;
          };
          synced = inr (blob, rest, ne, file' ∙ same ∙ file, n, holds);
        },
      )

  -- In every state that stands for a bank the file is enough to go on: any later run of the
  -- enclave that finds this file, and may read and write it, begins `ecallInitManager` with
  -- success and reaches a state that stands for the bank with the same accounts and nobody served.
  pub ecall_init_manager-Inv :
      (b : Bank) (w w₀ : World)
      → Inv sgx b w
      → w₀.file ≡ w.file
      → IsServing w₀
      → (w' : World) × (ecall_init_manager sgx w₀ ≡ (ok process_success, w'))
        × Inv sgx (closed b) w'
  ecall_init_manager-Inv b w w₀ v same s = elim (v.synced) [
    | inl (empty, file) ↦ init-empty b w w₀ v.live empty file same s
    | inr (blob, rest, ne, file, n, holds) ↦ elim (List-cases b.accounts) [
      | inl empty ↦ absurd (ne empty)
      | inr (a, accounts, e) ↦
          init-accounts b a accounts blob rest w w₀ v.live e ne file n holds same s
    ]
  ]
