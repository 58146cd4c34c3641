-- ===== src/World.antt =====
-- The state that the enclave and the application work on, and the monad over it.
-- Objects are allocated on `heap` and never freed; a pointer to an account is its index there.
pub mod Preserves
use seccap_sgx_bank.Base.{
  ℕ, ◌≡◌, ◌⊎◌, inl, inr, refl, Bool, Option, none, some, List, [], ◌∷◌, ◌++◌, length, get_elem?,
  set, Bytes,
}
use seccap_sgx_bank.Account.{Account}

-- `Encryption::SealingUnsealing` (Enclave/sealing.h)
pub record SealingUnsealing : Type 0 where
  pub add_mac_txt : Bytes

-- `Manager::DealManager` (Enclave/DealManager.h)
pub record DealManager : Type 0 where
  pub sealing_unsealing : SealingUnsealing
  pub current_account : Option ℕ
  pub account_list : List ℕ

-- The texts that the enclave and the application's ocalls print, by the place that prints them.
pub data Line : Type 0 where
  server_ready : Line
  sealed_size_too_big sealed_size_over_limit : ℕ → Line
  sealing_failed unsealing_failed : ℕ → ℕ → Line
  write_open_failed write_execute_failed read_account_failed : Line
  read_account_file_failed open_account_failed : Line
  perror_socket perror_bind perror_listen perror_accept enter_character enclave_destroyed : Line
  perror_recv login_start deposit_start withdraw_start finished : Line

-- How the host's file system answers. A short text may stay in the stream's buffer at `write`, which
-- then succeeds, and be written at `close`, which may fail in its turn. What a failure leaves in the
-- file is the file system's choice.
pub record Io : Type 0 where
  pub can_write : Bool
  pub write_succeeds : Bool
  pub close_succeeds : Bool
  pub after_failed_write : Bytes
  pub can_read : Bool
  pub can_seek : Bool

pub record World : Type 0 where
  pub heap : List Account
  pub deal_manager : Option DealManager
  pub file : Option Bytes
  pub io : Io
  pub draws : ℕ
  pub console : List Line

-- Why a run ends in the middle: `exit(EXIT_FAILURE)`, a failed `assert`, or an access that C++
-- leaves undefined. `out_of_fuel` is the model's own.
pub data Stop : Type 0 where
  exit_failure assert_failed null_pointer dangling_pointer out_of_bounds out_of_fuel : Stop

pub data Result (A : Type 0) : Type 0 where
  ok : A → Result A
  stop : Stop → Result A

pub Result-cases :
    {A : Type 0} (r : Result A × World)
    → ((a : A) × (w : World) × (r ≡ (ok a, w))) ⊎ ((s : Stop) × (w : World) × (r ≡ (stop s, w)))
Result-cases (ok a, w) = inl (a, w, refl)
Result-cases (stop s, w) = inr (s, w, refl)

abbrev pub M : Type 0 → Type 0
M A = World → Result A × World

infixl 5 ◌>>=◌ ◌>>◌
abbrev pub ◌>>=◌ : {A B : Type 0} → M A → (A → M B) → M B
◌>>=◌ m f w = let (r, w') = m w in elim r [ ok a ↦ f a w' | stop s ↦ (stop s, w') ]

abbrev pub ◌>>◌ : {A B : Type 0} → M A → M B → M B
m >> k = m >>= λ _. k

module _ {A : Type 0} where
  abbrev pub pure : A → M A
  pure a w = (ok a, w)

  abbrev pub halt : Stop → M A
  halt s w = (stop s, w)

  abbrev pub gets : (World → A) → M A
  gets f w = (ok (f w), w)

  -- A dereference of a pointer that may be null, or an access that may lie outside of a buffer.
  abbrev pub or_stop : Stop → Option A → M A
  or_stop s none = halt s
  or_stop s (some a) = pure a

abbrev pub modify : (World → World) → M (Unit {0})
modify f w = (ok tt, f w)

-- `assert(b)`, as it stands in a build without NDEBUG
abbrev pub assert : Bool → M (Unit {0})
assert b w = elim b [ Bool.true ↦ (ok tt, w) | Bool.false ↦ (stop assert_failed, w) ]

abbrev pub print : Line → M (Unit {0})
print l = modify (λ w. record w { console = w.console ++ l ∷ [] })

abbrev pub when : Bool → M (Unit {0}) → M (Unit {0})
when b m w = elim b [ Bool.true ↦ m w | Bool.false ↦ (ok tt, w) ]

-- `*p` for a pointer to an account
abbrev pub load : ℕ → M Account
load p w = or_stop dangling_pointer (get_elem? w.heap p) w

abbrev pub store : ℕ → Account → M (Unit {0})
store p a = modify (λ w. record w { heap = set w.heap p a })

-- `new Account(...)`
abbrev pub alloc : Account → M ℕ
alloc a w = (ok (length w.heap), record w { heap = w.heap ++ a ∷ [] })

-- `*DEAL_MANAGER`
abbrev pub this : M DealManager
this w = or_stop null_pointer w.deal_manager w

abbrev pub set_this : DealManager → M (Unit {0})
set_this m = modify (λ w. record w { deal_manager = some m })
