-- ===== src/Edger8r.antt =====
-- The samples of App/Edger8rSyntax and Enclave/Edger8rSyntax, which show how buffers pass between
-- the application and the enclave. The code that passes them is generated from the .edl files: it
-- is a parameter, with what the comments of Arrays.edl and Pointers.edl say of the attributes.
pub mod Arrays
pub mod Pointers
pub mod Copies
use seccap_sgx_bank.Base.{
  ℕ, ◌≡◌, Bool, true, false, Option, none, some, List, ◌++◌, take, drop, replicate,
}
use mathlib.Core.Option

infixl 5 ◌>>=◌
abbrev pub ◌>>=◌ : {A B : Type 0} → Option A → (A → Option B) → Option B
◌>>=◌ none f = none
◌>>=◌ (some a) f = f a

infixl 5 ◌>>◌
abbrev pub ◌>>◌ : {A B : Type 0} → Option A → Option B → Option B
◌>>◌ m n = m >>= (λ _. n)

abbrev pub assert : Bool → Option (Unit {0})
assert true = some tt
assert false = none

-- How a buffer reaches an ecall that may change it, by the attribute of the parameter. A copy has the
-- number of entries that is given: what [size] or [count] says, for a [string] up to and with its
-- NUL. `none` is an abort or an assert that failed.
pub record Bridge : Type 0 where
  pub user_check : (List ℕ → Option (List ℕ)) → List ℕ → Option (List ℕ)
  pub copied_in : ℕ → (List ℕ → Option (List ℕ)) → List ℕ → Option (List ℕ)
  pub copied_out : ℕ → (List ℕ → Option (List ℕ)) → List ℕ → Option (List ℕ)
  pub copied_in_out : ℕ → (List ℕ → Option (List ℕ)) → List ℕ → Option (List ℕ)

-- [user_check]: the application's buffer itself. [in]: a copy, whose changes do not reach the
-- application. [out]: a buffer of zeros, copied back. [in, out]: a copy, copied back. What is copied
-- back lies over the front of the application's buffer, whose other entries stay.
pub record BridgeLaws (bridge : Bridge) : Type 0 where
  pub user_check-run :
      (run : List ℕ → Option (List ℕ)) (buf : List ℕ) → bridge.user_check run buf ≡ run buf
  pub copied_in-run :
      (n : ℕ) (run : List ℕ → Option (List ℕ)) (buf : List ℕ)
      → bridge.copied_in n run buf ≡ Option.map (λ left. buf) (run (take n buf))
  pub copied_out-run :
      (n : ℕ) (run : List ℕ → Option (List ℕ)) (buf : List ℕ)
      → bridge.copied_out n run buf ≡ Option.map (λ left. left ++ drop n buf) (run (replicate n 0))
  pub copied_in_out-run :
      (n : ℕ) (run : List ℕ → Option (List ℕ)) (buf : List ℕ)
      → bridge.copied_in_out n run buf ≡ Option.map (λ left. left ++ drop n buf) (run (take n buf))
