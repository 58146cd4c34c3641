-- ===== src/Enclave/Lost.antt =====
-- App/App.cpp, line 200: what becomes of a deposit where `ofs.close()` fails, which nothing tests.
use seccap_sgx_bank.Base.{
  ℕ, ◌≡◌, ◌≢◌, ◌∙◌, sym, ap, refl, inl, inr, true, false, some, [], set, get_elem?-lt,
  get_elem?-set_self, All-get_elem?, List, arith, Bytes,
}
use seccap_sgx_bank.UserTypes.{process_success}
use seccap_sgx_bank.Account.{Account}
use seccap_sgx_bank.Bank.{Bank, in_use, credit}
use seccap_sgx_bank.Sgx.{Sgx, SgxLaws}
use seccap_sgx_bank.Sealing.RoundTrip.{after_sealing}
use seccap_sgx_bank.World.{World, Line, Result, ok}
use seccap_sgx_bank.Host.{ocall_account_list_store}
use seccap_sgx_bank.DealManager.{
  account_login, current, deal_my_deposit, account_list_store_storage,
}
use seccap_sgx_bank.DealManager.Parse.{IsStorable}
use seccap_sgx_bank.DealManager.Storage.{All-IsMade, store_storage-run}
use seccap_sgx_bank.Enclave.{ecall_init_manager, ecall_my_deposit}
use seccap_sgx_bank.Enclave.Inv.{Live, Inv, IsSealable-make}
use seccap_sgx_bank.Enclave.Change.{Used, current-cases, Live-change}
use seccap_sgx_bank.Enclave.Serve.{deposit-credit, credit-Rebalanced, set-ne-nil}
use seccap_sgx_bank.Enclave.Restart.{closed, IsServing, ecall_init_manager-Inv}

-- The same state on a host where `close` fails and leaves `left` in the file.
abbrev pub unclosed : Bytes → World → World
unclosed left w = record w {
  io = record w.io { close_succeeds = false; after_failed_write = left };
}

ocall_account_list_store-lost :
    (blob old left : Bytes) (w : World)
    → w.io.can_write ≡ true
    → w.io.write_succeeds ≡ true
    → w.io.close_succeeds ≡ false
    → w.io.after_failed_write ≡ left
    → w.file ≡ some old
    → ocall_account_list_store blob w ≡ (ok tt, record w { file = some left })
unfolding ocall_account_list_store
ocall_account_list_store-lost blob old left w c s k f e = ground arith

module _ (sgx : Sgx) (laws : SgxLaws sgx) where
  -- Storing the accounts still reports success.
  store_storage-lost :
      (b : Bank) (left : Bytes) (w : World)
      → b.accounts ≢ []
      → Live sgx b w
      → (lines : List Line) × (account_list_store_storage sgx (unclosed left w) ≡ (
        ok process_success,
        record (after_sealing sgx (unclosed left w) lines) { file = some left },
      ))
  store_storage-lost b left w ne l =
      let fits = l.fits in
      let v = IsSealable-make sgx b.accounts ne fits in
      let (blob, lines, run, n, holds) =
        store_storage-run sgx laws l.manager b.accounts (λ blob. left) (unclosed left w)
          l.manager_is l.shows (All-IsMade b.accounts l.storable) fits.plain_fits
          (rw (l.sealing_is) v)
          (λ blob u io same.
            ocall_account_list_store-lost blob l.old_file left u (rw io (l.can_write))
              (rw io (l.write_succeeds)) (rw io refl) (rw io refl) (same ∙ l.file_is)) in
      (lines, run)

  -- The tail of the ecall, after the deposit.
  deposit-lost :
      (b : Bank) (left : Bytes) (w : World) (l : Live sgx b w) (amount i p : ℕ) (a : Account)
      → Used sgx b w l i p a
      → (let m = l.manager in m.current_account ≡ some p)
      → (w' : World) × (ecall_my_deposit sgx amount (unclosed left w)
          ≡ (ok (let v = credit a amount in v.deposits), w'))
        × (w'.file ≡ some left)
  unfolding ecall_my_deposit deal_my_deposit account_login current
  deposit-lost b left w l amount i p a u here =
      let v = credit a amount in
      let stored = All-get_elem? IsStorable b.accounts i l.storable u.at_position in
      let r = credit-Rebalanced a amount stored.in_range in
      let w₁ = record w { heap = set w.heap p v } in
      let (lines, run) =
        store_storage-lost (record b { accounts = set b.accounts i v }) left w₁
          (set-ne-nil b.accounts i v u.at_position) (Live-change sgx b w l i p a v u r) in
      let is = l.manager_is in
      let found = u.on_heap in
      (
        record (after_sealing sgx (unclosed left w₁) lines) { file = some left },
        ground (
          arith,
          run,
          is,
          here,
          found,
          deposit-credit a amount stored.in_range,
          get_elem?-set_self w.heap p v (get_elem?-lt w.heap p u.on_heap),
        ),
        refl,
      )

  -- `ofs.close()` is not tested. Where the file is opened and `ofs.write` succeeds, but
  -- `ofs.close` fails and the file is left as it was, a deposit of the customer who is served is answered by
  -- the new balance, and is lost: an enclave that starts on that file stands for the bank as it was
  -- before the deposit, with nobody served. The state before stands for a bank, and the host serves
  -- the file at the start.
  pub ecall_my_deposit-lost :
      (b : Bank) (left : Bytes) (w w₀ : World) (amount i : ℕ) (a : Account)
      → Inv sgx b w
      → in_use b ≡ some (i, a)
      → w.file ≡ some left
      → (let (r, w') = ecall_my_deposit sgx amount (unclosed left w) in w₀.file ≡ w'.file)
      → IsServing w₀
      → let (r, w') = ecall_my_deposit sgx amount (unclosed left w) in
        (r ≡ ok (let v = credit a amount in v.deposits))
        × (w₁ : World) × (ecall_init_manager sgx w₀ ≡ (ok process_success, w₁))
        × Inv sgx (closed sgx laws b) w₁
  unfolding in_use
  ecall_my_deposit-lost b left w w₀ amount i a v used kept same_file serving =
      let l = v.live in
      elim (current-cases sgx b w l) [
        | inl (nobody, none_here) ↦ absurd (ground arith)
        | inr (j, p, c, u, here) ↦
            let (w', run, file) = deposit-lost b left w l amount j p c u here in
            let found = u.in_bank in
            let same : c ≡ a = cc in
            let (w₁, starts, inv) =
              ecall_init_manager-Inv sgx laws b w w₀ v
                (same_file
                  ∙ ap (λ (r : Result ℕ × World). let (x, y) = r in y.file) run
                  ∙ file
                  ∙ sym kept)
                serving in
            (
              ap (λ (r : Result ℕ × World). r.0) run
                  ∙ ap (λ x. ok (let v = credit x amount in v.deposits)) same,
              w₁,
              starts,
              inv,
            )
      ]
