-- ===== src/Enclave/Change.antt =====
-- A change of the balance of the account in use, in the store and in the bank.
use seccap_sgx_bank.Base.{
  ℕ, zero, suc, ◌≡◌, ◌≢◌, ◌⊎◌, inl, inr, refl, sym, subst, ◌∙◌, Option, none, some, List, [], ◌∷◌,
  length, length-append, get_elem?, set, get_elem?-lt, get_elem?-set_self, get_elem?-set_ne, All,
  All-get_elem?, All-set, arith,
}
use seccap_sgx_bank.CLib.Text.{IsText}
use seccap_sgx_bank.Account.{Account}
use seccap_sgx_bank.Account.Balance.{InRange}
use seccap_sgx_bank.Bank.{Bank, in_use}
use seccap_sgx_bank.Sgx.{Sgx}
use seccap_sgx_bank.World.{World, ok}
use seccap_sgx_bank.DealManager.{current}
use seccap_sgx_bank.DealManager.Marshal.{encode, encode_all, length-encode}
use seccap_sgx_bank.DealManager.Parse.{IsStorable}
use seccap_sgx_bank.DealManager.Pointers.{Shows}
use seccap_sgx_bank.Enclave.Inv.{Distinct, PointsAt, Live}

Shows-set_ne :
    (heap : List Account) (ps : List ℕ) (accounts : List Account) (p : ℕ) (v : Account)
    → All (λ q. p ≢ q) ps
    → Shows heap ps accounts
    → Shows (set heap p v) ps accounts
Shows-set_ne heap [] [] p v d h = tt
Shows-set_ne heap (q ∷ ps) (a ∷ accounts) p v d h =
    (get_elem?-set_ne heap p q v d.0 ∙ h.0, Shows-set_ne heap ps accounts p v d.1 h.1)
Shows-set_ne heap [] (a ∷ accounts) p v d h = absurd h
Shows-set_ne heap (q ∷ ps) [] p v d h = absurd h

-- A write through the pointer at position `i` changes the account at position `i` alone.
Shows-set :
    (heap : List Account) (ps : List ℕ) (accounts : List Account) (i : ℕ) {p : ℕ} (v : Account)
    → Distinct ps
    → Shows heap ps accounts
    → get_elem? ps i ≡ some p
    → Shows (set heap p v) ps (set accounts i v)
Shows-set heap [] [] i {p} v d h e = cc
Shows-set heap (q ∷ ps) (a ∷ accounts) zero {p} v d h e =
    let same : q ≡ p = cc in
    subst (λ r. Shows (set heap r v) (q ∷ ps) (v ∷ accounts)) same
      (
        get_elem?-set_self heap q v (get_elem?-lt heap q h.0),
        Shows-set_ne heap ps accounts q v d.0 h.1,
      )
Shows-set heap (q ∷ ps) (a ∷ accounts) (suc i) {p} v d h e = (
  get_elem?-set_ne heap p q v (λ s. All-get_elem? _ ps i d.0 e (sym s)) ∙ h.0,
  Shows-set heap ps accounts i v d.1 h.1 e,
)
Shows-set heap [] (a ∷ accounts) i {p} v d h e = absurd h
Shows-set heap (q ∷ ps) [] i {p} v d h e = absurd h

Shows-get_elem? :
    (heap : List Account) (ps : List ℕ) (accounts : List Account) (i : ℕ) {p : ℕ}
    → Shows heap ps accounts
    → get_elem? ps i ≡ some p
    → (a : Account) × (get_elem? accounts i ≡ some a) × (get_elem? heap p ≡ some a)
Shows-get_elem? heap [] [] i {p} h e = cc
Shows-get_elem? heap (q ∷ ps) (a ∷ accounts) zero {p} h e =
    (a, refl, let same : q ≡ p = cc in rw (← same) h.0)
Shows-get_elem? heap (q ∷ ps) (a ∷ accounts) (suc i) {p} h e =
    Shows-get_elem? heap ps accounts i h.1 e
Shows-get_elem? heap [] (a ∷ accounts) i {p} h e = absurd h
Shows-get_elem? heap (q ∷ ps) [] i {p} h e = absurd h

PointsAt-cases :
    (ps : List ℕ) (o q : Option ℕ)
    → PointsAt ps o q
    → ((o ≡ none) × (q ≡ none))
      ⊎ ((i : ℕ) × (p : ℕ) × (o ≡ some i) × (q ≡ some p) × (get_elem? ps i ≡ some p))
PointsAt-cases ps none none h = inl (refl, refl)
PointsAt-cases ps (some i) (some p) h = inr (i, p, refl, refl, h)
PointsAt-cases ps none (some p) h = absurd h
PointsAt-cases ps (some i) none h = absurd h

-- A new balance leaves the length of the lines as it is.
length-encode_all-set :
    (accounts : List Account) (i : ℕ) (a v : Account)
    → get_elem? accounts i ≡ some a
    → length (encode v) ≡ length (encode a)
    → length (encode_all (set accounts i v)) ≡ length (encode_all accounts)
length-encode_all-set [] i a v e h = refl
length-encode_all-set (x ∷ accounts) zero a v e h =
    let head : length (encode x) ≡ length (encode a) = ground arith in
    omega (
      arith,
      length-append (encode v) (encode_all accounts),
      length-append (encode x) (encode_all accounts),
    )
length-encode_all-set (x ∷ accounts) (suc i) a v e h = omega (
  arith,
  length-encode_all-set accounts i a v e h,
  length-append (encode x) (encode_all (set accounts i v)),
  length-append (encode x) (encode_all accounts),
)

-- The same account with another balance, which is a 64-bit number.
pub record Rebalanced (a v : Account) : Type 0 where
  pub same : v ≡ record a { deposits = v.deposits }
  pub in_range : InRange v

Rebalanced-IsStorable : (a v : Account) → Rebalanced a v → IsStorable a → IsStorable v
Rebalanced-IsStorable a v r s =
    let name_field = s.name_field in
    let password_field = s.password_field in
    let e = r.same in
    let made = s.made in
    record {
      made = ground arith;
      name_field = ground arith;
      password_field = ground arith;
      in_range = r.in_range;
    }

Rebalanced-length : (a v : Account) → Rebalanced a v → length (encode v) ≡ length (encode a)
Rebalanced-length a v r = let e = r.same in rw (length-encode v, length-encode a) (ground (arith))

module _ (sgx : Sgx) (b : Bank) (w : World) (l : Live sgx b w) where
  -- What the enclave finds for the account at position `i`.
  pub record Used (i p : ℕ) (a : Account) : Type 0 where
    pub at_position : get_elem? b.accounts i ≡ some a
    pub on_heap : get_elem? w.heap p ≡ some a
    pub pointer : get_elem? (let m = l.manager in m.account_list) i ≡ some p
    pub in_bank : in_use b ≡ some (i, a)
    pub in_enclave : current w ≡ (ok (p, a), w)

  -- Either nobody is served, in the bank and in the enclave, or both have the same account in use.
  pub current-cases :
      ((b.current ≡ none) × (let m = l.manager in m.current_account ≡ none))
      ⊎ ((i : ℕ) × (p : ℕ) × (a : Account) × Used i p a
          × (let m = l.manager in m.current_account ≡ some p))
  unfolding in_use current
  current-cases =
      let m = l.manager in
      elim (PointsAt-cases m.account_list b.current m.current_account l.current_is) [
        | inl nobody ↦ inl nobody
        | inr (i, p, at, e, q) ↦
            let (a, found, on_heap) =
              Shows-get_elem? w.heap m.account_list b.accounts i l.shows q in
            let is = l.manager_is in
            inr (
              i,
              p,
              a,
              record {
                at_position = found;
                on_heap = on_heap;
                pointer = q;
                in_bank = ground arith;
                in_enclave = ground arith;
              },
              e,
            )
      ]

  -- A new balance in the store is the same new balance in the bank.
  pub Live-change :
      (i p : ℕ) (a v : Account)
      → Used i p a
      → Rebalanced a v
      → Live sgx (record b { accounts = set b.accounts i v }) (record w { heap = set w.heap p v })
  Live-change i p a v u r =
      let m = l.manager in
      let f = l.fits in
      let size = length-encode_all-set b.accounts i a v u.at_position (Rebalanced-length a v r) in
      let storable = All-get_elem? IsStorable b.accounts i l.storable u.at_position in
      let text = All-get_elem? (λ x. IsText x.password) b.accounts i l.texts u.at_position in
      let e = r.same in
      record {
        manager = m;
        manager_is = l.manager_is;
        sealing_is = l.sealing_is;
        shows = Shows-set w.heap m.account_list b.accounts i v l.distinct l.shows u.pointer;
        distinct = l.distinct;
        current_is = l.current_is;
        storable =
            All-set IsStorable b.accounts i v l.storable (Rebalanced-IsStorable a v r storable);
        texts = All-set (λ x. IsText x.password) b.accounts i v l.texts (ground (arith, text));
        fits = record { plain_fits = rw size f.plain_fits; sealed_fits = rw size f.sealed_fits };
        can_write = l.can_write;
        write_succeeds = l.write_succeeds;
        close_succeeds = l.close_succeeds;
        old_file = l.old_file;
        file_is = l.file_is;
      }
