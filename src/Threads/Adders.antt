-- ===== src/Threads/Adders.antt =====
-- Enclave/TrustedLibrary/Thread.cpp: `ecall_increase_counter`, and App/TrustedLibrary/Thread.cpp:
-- `increase_counter` and the four adders of `ecall_thread_functions`, in any order.
pub mod Total
pub mod Ends
use seccap_sgx_bank.Base.{
  ℕ, suc, ◌+◌, ◌*◌, ◌%◌, ◌≡◌, Bool, true, false, some, List, [], ◌∷◌, ◌==◌, if◌then◌else◌,
  get_elem?, set,
}
use seccap_sgx_bank.CLib.{u64_mod}

-- Where an adder is: at the test of its loop with `n` rounds to go, or inside of it with `n` rounds
-- to go after this one; `ret` is the variable of that name. `adding` holds the mutex, `reading` has
-- read the counter into `tmp`, `written` has written it, and `tested` has compared it. A `joined`
-- adder has returned, and its caller has stored what it returned.
pub data Adder : Type 0 where
  looping adding written tested : ℕ → ℕ → Adder
  reading : ℕ → ℕ → ℕ → Adder
  joined : Adder

-- `global_counter` and whether its mutex is locked, the application's `counter`, and the adders.
pub record Sum : Type 0 where
  pub global_counter : ℕ
  pub locked : Bool
  pub counter : ℕ
  pub adders : List Adder

-- A step of one adder: the counters, the mutex and the adder before and after it. The functions of
-- the source that it stands for run in the enclave and, for `join`, in the application.
pub data Adds (loops : ℕ) : ℕ → Bool → ℕ → Adder → ℕ → Bool → ℕ → Adder → Type 0 where
  lock : {g c n ret : ℕ} → Adds loops g false c (looping (suc n) ret) g true c (adding n ret)
  read : {g c n ret : ℕ} {l : Bool} → Adds loops g l c (adding n ret) g l c (reading n ret g)
  write :
      {g c n ret tmp : ℕ} {l : Bool}
      → Adds loops g l c (reading n ret tmp) ((tmp + 1) % u64_mod) l c (written n ret)
  compare :
      {g c n ret : ℕ} {l : Bool}
      → Adds loops g l c (written n ret) g l c (tested n (if 4 * loops == g then g else ret))
  unlock : {g c n ret : ℕ} {l : Bool} → Adds loops g l c (tested n ret) g false c (looping n ret)
  join :
      {g c ret : ℕ} {l : Bool}
      → Adds loops g l c (looping 0 ret) g l (if ret == 0 then c else ret) joined

pub data AddStep (loops : ℕ) (s : Sum) : Sum → Type 0 where
  pick :
      (i : ℕ) {a a' : Adder} {g c : ℕ} {l : Bool}
      → get_elem? s.adders i ≡ some a
      → Adds loops s.global_counter s.locked s.counter a g l c a'
      → AddStep loops s
          (record { global_counter = g; locked = l; counter = c; adders = set s.adders i a' })

-- The four adders before their first steps.
abbrev pub four_adders : ℕ → Sum
four_adders loops = record {
  global_counter = 0;
  locked = false;
  counter = 0;
  adders = looping loops 0 ∷ looping loops 0 ∷ looping loops 0 ∷ looping loops 0 ∷ [];
}

-- The states that are reached, with the number of steps.
pub data AddRun (loops : ℕ) : ℕ → Sum → Type 0 where
  begin : AddRun loops 0 (four_adders loops)
  later : {k : ℕ} {s t : Sum} → AddRun loops k s → AddStep loops s t → AddRun loops (suc k) t
