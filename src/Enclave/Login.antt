-- ===== src/Enclave/Login.antt =====
-- `ecallNewAccount` does what the bank does at a login.
use seccap_sgx_bank.Base.{
  ℕ, suc, ◌≡◌, ◌≢◌, ◌⊎◌, inl, inr, refl, none, some, List, [], ◌∷◌, ◌++◌, length, get_elem?,
  get_elem?-lt, All-append, All-get_elem?, bytes_eq, if◌then◌else◌, Bool-cases, arith, Bytes,
}
use mathlib.Core.List.{concat-ne-nil}
use seccap_sgx_bank.CLib.Text.{IsText, strcmp_eq-bytes_eq}
use seccap_sgx_bank.Account.{Account}
use seccap_sgx_bank.Account
use seccap_sgx_bank.UserTypes.{process_success, account_set_fail}
use seccap_sgx_bank.Bank.{Bank, position, log_in}
use seccap_sgx_bank.Sgx.{Sgx, SgxLaws}
use seccap_sgx_bank.World.{World, DealManager, ok}
use seccap_sgx_bank.DealManager.{set_current_account}
use seccap_sgx_bank.DealManager.Parse.{IsStorable, IsField}
use seccap_sgx_bank.DealManager.Pointers.{Shows, Shows-push}
use seccap_sgx_bank.Enclave.{find_account, existing_account, fresh_account, ecall_new_account}
use seccap_sgx_bank.Enclave.Inv.{Distinct, Fits, Live, Inv, store_storage-Inv}

-- What `find_account` returns, by what the bank finds.
abbrev pub Finds : Bytes → List ℕ → List Account → World → Type 0
Finds name ps accounts w =
    ((position name accounts ≡ none) × (find_account name ps w ≡ (ok none, w)))
    ⊎ ((i : ℕ) × (p : ℕ) × (a : Account) × (position name accounts ≡ some i)
        × (get_elem? ps i ≡ some p)
        × (get_elem? accounts i ≡ some a)
        × (find_account name ps w ≡ (ok (some (p, a)), w)))

pub find_account-Finds :
    (name : Bytes) (ps : List ℕ) (accounts : List Account) (w : World)
    → Shows w.heap ps accounts
    → Finds name ps accounts w
unfolding find_account position
find_account-Finds name [] [] w h = inl (refl, refl)
find_account-Finds name (p ∷ ps) (a ∷ accounts) w h = elim (Bool-cases (bytes_eq name a.name)) [
  | inl same ↦ inr (0, p, a, ground arith, refl, refl, ground arith)
  | inr other ↦ elim (find_account-Finds name ps accounts w h.1) [
    | inl (unknown, e) ↦ inl (ground arith, ground arith)
    | inr (i, q, b, known, at, is, e) ↦ inr (suc i, q, b, ground arith, at, is, ground arith)
  ]
]
find_account-Finds name [] (a ∷ accounts) w h = absurd h
find_account-Finds name (p ∷ ps) [] w h = absurd h

-- Pointers on the list lie below the next address, so that the next one is distinct from them.
pub Shows-Distinct :
    (heap : List Account) (ps : List ℕ) (accounts : List Account)
    → Shows heap ps accounts
    → Distinct ps
    → Distinct (ps ++ length heap ∷ [])
Shows-Distinct heap [] [] h d = (tt, tt)
Shows-Distinct heap (p ∷ ps) (a ∷ accounts) h d =
    let below = get_elem?-lt heap p h.0 in
    (
      All-append (λ q. p ≢ q) ps (length heap ∷ []) d.0 ((omega arith), tt),
      Shows-Distinct heap ps accounts h.1 d.1,
    )
Shows-Distinct heap [] (a ∷ accounts) h d = absurd h
Shows-Distinct heap (p ∷ ps) [] h d = absurd h

Shows-get_elem?-length :
    (heap : List Account) (ps : List ℕ) (accounts : List Account) (q : ℕ)
    → Shows heap ps accounts
    → get_elem? (ps ++ q ∷ []) (length accounts) ≡ some q
Shows-get_elem?-length heap [] [] q h = refl
Shows-get_elem?-length heap (p ∷ ps) (a ∷ accounts) q h =
    Shows-get_elem?-length heap ps accounts q h.1
Shows-get_elem?-length heap [] (a ∷ accounts) q h = absurd h
Shows-get_elem?-length heap (p ∷ ps) [] q h = absurd h

-- What a customer can give as a name or password through the application: no NUL and no comma.
pub record IsCredential (s : Bytes) : Type 0 where
  pub text : IsText s
  pub field : IsField s

pub log_in-none :
    (b : Bank) (name password : Bytes)
    → position name b.accounts ≡ none
    → log_in b name password ≡ (
      record {
        accounts = b.accounts ++ Account.new_account name password ∷ [];
        current = some (length b.accounts);
      },
      process_success,
    )
unfolding log_in
log_in-none b name password e = ground arith

pub log_in-some :
    (b : Bank) (name password : Bytes) {i : ℕ} {a : Account}
    → position name b.accounts ≡ some i
    → get_elem? b.accounts i ≡ some a
    → log_in b name password ≡ (
      record b { current = some i },
      if bytes_eq password a.password then process_success else account_set_fail,
    )
unfolding log_in
log_in-some b name password e f = ground arith

module _ (sgx : Sgx) where
  -- The known account becomes the current one.
  Live-current :
      (b : Bank) (w : World) (l : Live sgx b w) (i p : ℕ)
      → get_elem? (let m = l.manager in m.account_list) i ≡ some p
      → Live sgx
          (record b { current = some i })
          (record w { deal_manager = some (record (l.manager) { current_account = some p }) })
  Live-current b w l i p at = record {
    manager = record (l.manager) { current_account = some p };
    manager_is = refl;
    sealing_is = l.sealing_is;
    shows = l.shows;
    distinct = l.distinct;
    current_is = at;
    storable = l.storable;
    texts = l.texts;
    fits = l.fits;
    can_write = l.can_write;
    write_succeeds = l.write_succeeds;
    close_succeeds = l.close_succeeds;
    old_file = l.old_file;
    file_is = l.file_is;
  }

  -- The world in which `ecallNewAccount` stores the accounts, a new one among them.
  abbrev opened : World → DealManager → Account → World
  opened w m a = record w {
    heap = w.heap ++ a ∷ [];
    deal_manager = some (record m {
      current_account = some (length w.heap);
      account_list = m.account_list ++ length w.heap ∷ [];
    });
  }

  abbrev with_new : Bank → Account → Bank
  with_new b a = record { accounts = b.accounts ++ a ∷ []; current = some (length b.accounts) }

  Live-opened :
      (b : Bank) (w : World) (l : Live sgx b w) (name password : Bytes)
      → IsCredential name
      → IsCredential password
      → Fits sgx (b.accounts ++ Account.new_account name password ∷ [])
      → let a = Account.new_account name password in
        Live sgx (with_new b a) (opened w (l.manager) a)
  Live-opened b w l name password n p f =
      let m = l.manager in
      let a = Account.new_account name password in
      record {
        manager = record m {
          current_account = some (length w.heap);
          account_list = m.account_list ++ length w.heap ∷ [];
        };
        manager_is = refl;
        sealing_is = l.sealing_is;
        shows = Shows-push w.heap m.account_list b.accounts a l.shows;
        distinct = Shows-Distinct w.heap m.account_list b.accounts l.shows l.distinct;
        current_is =
            Shows-get_elem?-length w.heap m.account_list b.accounts (length w.heap) l.shows;
        storable = All-append IsStorable b.accounts (a ∷ []) l.storable (
          record {
            made = refl;
            name_field = n.field;
            password_field = p.field;
            in_range = omega arith;
          },
          tt,
        );
        texts = All-append (λ x. IsText x.password) b.accounts (a ∷ []) l.texts (p.text, tt);
        fits = f;
        can_write = l.can_write;
        write_succeeds = l.write_succeeds;
        close_succeeds = l.close_succeeds;
        old_file = l.old_file;
        file_is = l.file_is;
      }

  module _ (laws : SgxLaws sgx) where
    new_case :
        (b : Bank) (w : World) (name password : Bytes) (l : Live sgx b w)
        → position name b.accounts ≡ none
        → find_account name (let m = l.manager in m.account_list) w ≡ (ok none, w)
        → IsCredential name
        → IsCredential password
        → Fits sgx (let (b', r) = log_in b name password in b'.accounts)
        → let (b', r) = log_in b name password in
          (w' : World) × (ecall_new_account sgx (some name) (some password) w ≡ (ok r, w'))
          × Inv sgx b' w'
    unfolding ecall_new_account fresh_account set_current_account
    new_case b w name password l unknown e n p f =
        let m = l.manager in
        let is = l.manager_is in
        let a = Account.new_account name password in
        let bank = log_in-none b name password unknown in
        let live = Live-opened b w l name password n p (rw bank at f) in
        let (w', run, heap, manager, inv) =
          store_storage-Inv sgx laws (with_new b a) (opened w m a) (concat-ne-nil a b.accounts)
            live in
        rw bank (w', ground (arith, run), inv)

    old_case :
        (b : Bank) (w : World) (v : Inv sgx b w) (name password : Bytes) (i q : ℕ) (a : Account)
        → position name b.accounts ≡ some i
        → get_elem? (let l = v.live in let m = l.manager in m.account_list) i ≡ some q
        → get_elem? b.accounts i ≡ some a
        → find_account name (let l = v.live in let m = l.manager in m.account_list) w
          ≡ (ok (some (q, a)), w)
        → IsCredential password
        → let (b', r) = log_in b name password in
          (w' : World) × (ecall_new_account sgx (some name) (some password) w ≡ (ok r, w'))
          × Inv sgx b' w'
    unfolding ecall_new_account existing_account set_current_account
    old_case b w v name password i q a known at found e p =
        let l = v.live in
        let m = l.manager in
        let is = l.manager_is in
        let texts = All-get_elem? (λ x. IsText x.password) b.accounts i l.texts found in
        let same = strcmp_eq-bytes_eq password a.password p.text texts in
        rw (log_in-some b name password known found) (
          record w { deal_manager = some (record m { current_account = some q }) },
          ground (arith, same),
          record { live = Live-current b w l i q at; synced = v.synced },
        )

    -- `ecallNewAccount` on a state that stands for a bank answers what the bank answers at a
    -- login, and leads to a state that stands for the bank afterwards, with the file up to date.
    -- The name and the password hold no NUL and no comma, and the accounts afterwards fit.
    pub ecall_new_account-log_in :
        (b : Bank) (w : World) (name password : Bytes)
        → Inv sgx b w
        → IsCredential name
        → IsCredential password
        → Fits sgx (let (b', r) = log_in b name password in b'.accounts)
        → let (b', r) = log_in b name password in
          (w' : World) × (ecall_new_account sgx (some name) (some password) w ≡ (ok r, w'))
          × Inv sgx b' w'
    unfolding ecall_new_account
    ecall_new_account-log_in b w name password v n p f =
        let l = v.live in
        let m = l.manager in
        let is = l.manager_is in
        elim (find_account-Finds name m.account_list b.accounts w l.shows) [
          | inl (unknown, e) ↦ new_case b w name password l unknown e n p f
          | inr (i, q, a, known, at, found, e) ↦
              old_case b w v name password i q a known at found e p
        ]
