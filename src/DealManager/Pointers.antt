-- ===== src/DealManager/Pointers.antt =====
-- The accounts that a list of pointers stands for, under the changes of the heap.
use seccap_sgx_bank.Base.{
  ℕ, ◌≡◌, refl, some, List, [], ◌∷◌, ◌++◌, append_assoc, append-nil, length, get_elem?,
  get_elem?-append_left, get_elem?-length, arith,
}
use seccap_sgx_bank.Account.{Account}
use seccap_sgx_bank.World.{World, DealManager, ok}
use seccap_sgx_bank.DealManager.{load_all}
use seccap_sgx_bank.DealManager.Parse.{with_account, with_accounts}

-- The pointers of the first list point at the accounts of the second.
abbrev pub Shows : List Account → List ℕ → List Account → Type 0
Shows heap [] [] = Unit
Shows heap (p ∷ ps) (a ∷ accounts) = (get_elem? heap p ≡ some a) × Shows heap ps accounts
Shows heap _ _ = ⊥

pub load_all-Shows :
    (ps : List ℕ) (accounts : List Account) (w : World)
    → Shows w.heap ps accounts
    → load_all ps w ≡ (ok accounts, w)
unfolding load_all
load_all-Shows [] [] w h = refl
load_all-Shows (p ∷ ps) (a ∷ accounts) w h = ground (arith, load_all-Shows ps accounts w h.1)
load_all-Shows [] (a ∷ accounts) w h = absurd h
load_all-Shows (p ∷ ps) [] w h = absurd h

-- New objects do not move the old ones.
pub Shows-append :
    (heap more : List Account) (ps : List ℕ) (accounts : List Account)
    → Shows heap ps accounts
    → Shows (heap ++ more) ps accounts
Shows-append heap more [] [] h = tt
Shows-append heap more (p ∷ ps) (a ∷ accounts) h =
    (get_elem?-append_left heap more p h.0, Shows-append heap more ps accounts h.1)
Shows-append heap more [] (a ∷ accounts) h = absurd h
Shows-append heap more (p ∷ ps) [] h = absurd h

Shows-concat :
    (heap : List Account) (ps : List ℕ) (accounts : List Account) (p : ℕ) (a : Account)
    → Shows heap ps accounts
    → get_elem? heap p ≡ some a
    → Shows heap (ps ++ p ∷ []) (accounts ++ a ∷ [])
Shows-concat heap [] [] p a h e = (e, tt)
Shows-concat heap (q ∷ ps) (b ∷ accounts) p a h e = (h.0, Shows-concat heap ps accounts p a h.1 e)
Shows-concat heap [] (b ∷ accounts) p a h e = absurd h
Shows-concat heap (q ∷ ps) [] p a h e = absurd h

pub Shows-push :
    (heap : List Account) (ps : List ℕ) (accounts : List Account) (a : Account)
    → Shows heap ps accounts
    → Shows (heap ++ a ∷ []) (ps ++ length heap ∷ []) (accounts ++ a ∷ [])
Shows-push heap ps accounts a h =
    Shows-concat (heap ++ a ∷ []) ps accounts (length heap) a
      (Shows-append heap (a ∷ []) ps accounts h) (get_elem?-length heap a)

-- After `with_accounts` the manager lists the old accounts and then the new ones.
pub with_accounts-Shows :
    (more : List Account) (m : DealManager) (accounts : List Account) (w : World)
    → Shows w.heap m.account_list accounts
    → let w' = with_accounts m more w in
      (m' : DealManager) × (w'.deal_manager ≡ some m')
      × (m'.current_account ≡ m.current_account)
      × (m'.sealing_unsealing ≡ m.sealing_unsealing)
      × Shows w'.heap m'.account_list (accounts ++ more)
      × (w'.file ≡ w.file)
      × (w'.heap ≡ w.heap ++ more)
      × (w'.io ≡ w.io)
with_accounts-Shows [] m accounts w h =
    (m, refl, refl, refl, rw append-nil h, refl, rw append-nil, refl)
with_accounts-Shows (a ∷ more) m accounts w h =
    let m₁ = record m { account_list = m.account_list ++ length w.heap ∷ [] } in
    let r =
      with_accounts-Shows more m₁ (accounts ++ a ∷ []) (with_account m a w)
        (Shows-push w.heap m.account_list accounts a h) in
    (r.0, r.1, r.2, r.3, rw append_assoc at (r.4), r.5, rw append_assoc at (r.6), r.7)
