-- ===== src/Threads.antt =====
-- Enclave/TrustedLibrary/Thread.cpp and App/TrustedLibrary/Thread.cpp: `ecall_producer` and
-- `ecall_consumer` on the one buffer, run by any number of threads in any order.
pub mod Count
pub mod Ring
pub mod Inv
pub mod Moves
pub mod Waits
pub mod Steps
pub mod Progress
pub mod Safety
pub mod Adders
use seccap_sgx_bank.Base.{
  ℕ, suc, ◌+◌, ◌-◌, ◌*◌, ◌%◌, ◌≡◌, Bool, true, false, Option, some, List, [], ◌∷◌, leb, get_elem?,
  set, replicate,
}
use seccap_sgx_bank.Threads.Count.{count}

-- `BUFFER_SIZE`
abbrev pub buffer_size : ℕ
buffer_size = 50

-- `cond_buffer_t`, without its mutex and its conditions.
pub record CondBuffer : Type 0 where
  pub buf : List ℕ
  pub occupied : ℕ
  pub nextin : ℕ
  pub nextout : ℕ

-- `buffer`
abbrev pub empty_buffer : CondBuffer
empty_buffer = record { buf = replicate buffer_size 0; occupied = 0; nextin = 0; nextout = 0 }

pub data Role : Type 0 where
  producer consumer : Role

-- Where a thread is in its loop: at the test of the loop, with `n` rounds to go, or inside of it,
-- with `n` rounds to go after this one. `waiting` is inside of `sgx_thread_cond_wait`, which has
-- released the mutex; a thread that was signalled takes the mutex again before it leaves the call.
pub data Point : Type 0 where
  entering testing waiting woken storing signalling unlocking : ℕ → Point

-- The test of the inner loop.
abbrev pub must_wait : Role → CondBuffer → Bool
must_wait producer b = leb buffer_size b.occupied
must_wait consumer b = leb b.occupied 0

-- What is done with the buffer between the inner loop and the signal.
unfoldable pub produce : CondBuffer → CondBuffer
produce b = record b {
  buf = set b.buf b.nextin b.nextin;
  nextin = (b.nextin + 1) % buffer_size;
  occupied = b.occupied + 1;
}

-- `occupied` is an `int`, and positive where it is decremented.
unfoldable pub consume : CondBuffer → CondBuffer
consume b = record b {
  buf = set b.buf b.nextout 0;
  nextout = (b.nextout + 1) % buffer_size;
  occupied = b.occupied - 1;
}

abbrev pub body : Role → CondBuffer → CondBuffer
body producer b = produce b
body consumer b = consume b

abbrev pub Thread : Type 0
Thread = Role × Point

-- Whether a thread waits for the signal that a thread of this role sends: a producer signals
-- `more`, on which consumers wait, and a consumer `less`, on which producers wait.
abbrev pub waits_for : Role → Thread → ℕ
waits_for producer (consumer, waiting n) = 1
waits_for consumer (producer, waiting n) = 1
waits_for _ _ = 0

-- The buffer, whether its mutex is locked, and the threads.
pub record State : Type 0 where
  pub buffer : CondBuffer
  pub locked : Bool
  pub threads : List Thread

-- A step of one thread that concerns no other: the buffer, the mutex and the point before and
-- after it.
pub data Move (b : CondBuffer) (r : Role) : Bool → Point → CondBuffer → Bool → Point → Type 0 where
  lock : {n : ℕ} → Move b r false (entering (suc n)) b true (testing n)
  relock : {n : ℕ} → Move b r false (woken n) b true (testing n)
  sleep : {l : Bool} {n : ℕ} → must_wait r b ≡ true → Move b r l (testing n) b false (waiting n)
  pass : {l : Bool} {n : ℕ} → must_wait r b ≡ false → Move b r l (testing n) b l (storing n)
  act : {l : Bool} {n : ℕ} → Move b r l (storing n) (body r b) l (signalling n)
  unlock : {l : Bool} {n : ℕ} → Move b r l (unlocking n) b false (entering n)

-- A step of the threads. A signal wakes one thread that waits for it, any, and is lost where
-- there is none. Nothing else ends a wait.
pub data Step (s : State) : State → Type 0 where
  pick :
      (i : ℕ) {r : Role} {p p' : Point} {b : CondBuffer} {l : Bool}
      → get_elem? s.threads i ≡ some (r, p)
      → Move s.buffer r s.locked p b l p'
      → Step s (record { buffer = b; locked = l; threads = set s.threads i (r, p') })
  lose :
      (i : ℕ) {r : Role} {n : ℕ}
      → get_elem? s.threads i ≡ some (r, signalling n)
      → count (waits_for r) s.threads ≡ 0
      → Step s (record s { threads = set s.threads i (r, unlocking n) })
  wake :
      (i j : ℕ) {r q : Role} {n m : ℕ}
      → get_elem? s.threads i ≡ some (r, signalling n)
      → get_elem? s.threads j ≡ some (q, waiting m)
      → waits_for r (q, waiting m) ≡ 1
      → Step s (record s { threads = set (set s.threads i (r, unlocking n)) j (q, woken m) })

-- LOOPS_PER_THREAD of Include/user_types.h
abbrev pub loops_per_thread : ℕ
loops_per_thread = 500

-- `ecall_thread_functions`: one producer between four consumers. `loops` is LOOPS_PER_THREAD.
abbrev pub thread_functions : ℕ → List Thread
thread_functions loops =
    (consumer, entering loops)
    ∷ (producer, entering (4 * loops))
    ∷ (consumer, entering loops)
    ∷ (consumer, entering loops)
    ∷ (consumer, entering loops)
    ∷ []

abbrev pub init : ℕ → State
init loops = record { buffer = empty_buffer; locked = false; threads = thread_functions loops }

-- The states that are reached, with the number of steps.
pub data Run (loops : ℕ) : ℕ → State → Type 0 where
  begin : Run loops 0 (init loops)
  later : {k : ℕ} {s t : State} → Run loops k s → Step s t → Run loops (suc k) t
