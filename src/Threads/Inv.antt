-- ===== src/Threads/Inv.antt =====
-- What holds in every state that the threads reach, as sums over the threads.
use seccap_sgx_bank.Base.{ℕ, zero, suc, ◌+◌, ◌<◌, ◌≤◌, ◌≡◌, Bool, true, false, List, arith}
use seccap_sgx_bank.Threads.Count.{count}
use seccap_sgx_bank.Threads.Ring.{IsRing}
use seccap_sgx_bank.Threads.{
  CondBuffer, buffer_size, Role, producer, consumer, Point, entering, testing, waiting, woken,
  storing, signalling, unlocking, Thread, waits_for, State,
}

abbrev pub locks : Bool → ℕ
locks true = 1
locks false = 0

pub locks-le : (l : Bool) → locks l ≤ 1
locks-le true = omega arith
locks-le false = omega arith

-- Whether a thread at this point holds the mutex.
abbrev pub holds : Thread → ℕ
holds (r, testing n) = 1
holds (r, storing n) = 1
holds (r, signalling n) = 1
holds (r, unlocking n) = 1
holds _ = 0

-- Whether a thread of this role has passed the test and not yet changed the buffer.
abbrev pub stores : Role → Thread → ℕ
stores producer (producer, storing n) = 1
stores consumer (consumer, storing n) = 1
stores _ _ = 0

-- Whether a thread of this role has changed the buffer and not yet signalled it.
abbrev pub signals : Role → Thread → ℕ
signals producer (producer, signalling n) = 1
signals consumer (consumer, signalling n) = 1
signals _ _ = 0

-- How often a thread at this point will change the buffer.
abbrev pub rounds : Point → ℕ
rounds (entering n) = n
rounds (signalling n) = n
rounds (unlocking n) = n
rounds (testing n) = n + 1
rounds (waiting n) = n + 1
rounds (woken n) = n + 1
rounds (storing n) = n + 1

abbrev pub left : Role → Thread → ℕ
left producer (producer, p) = rounds p
left consumer (consumer, p) = rounds p
left _ _ = 0

abbrev positive_one : ℕ → ℕ
positive_one zero = 0
positive_one (suc n) = 1

-- Whether a thread at this point has rounds to go and does not wait for a signal.
abbrev pub runs : Point → ℕ
runs (entering n) = positive_one n
runs (signalling n) = positive_one n
runs (unlocking n) = positive_one n
runs (waiting n) = 0
runs _ = 1

abbrev pub active : Role → Thread → ℕ
active producer (producer, p) = runs p
active consumer (consumer, p) = runs p
active _ _ = 0

-- The numbers of the invariant: the mutex is held by at most one thread and exactly when it is
-- locked; a thread that is about to change the buffer finds room or an item; what is to be
-- produced and what is in the buffer is what is to be consumed. While a consumer waits, every item
-- is one for which a consumer runs or a signal is to come, and likewise for the free slots while a
-- producer waits.
pub record Counts (b : CondBuffer) (l : Bool) (threads : List Thread) : Type 0 where
  pub lock : count holds threads ≡ locks l
  pub room : b.occupied + count (stores producer) threads ≤ buffer_size
  pub items : count (stores consumer) threads ≤ b.occupied
  pub balance : count (left producer) threads + b.occupied ≡ count (left consumer) threads
  pub fed :
      0 < count (waits_for producer) threads
      → b.occupied ≤ count (active consumer) threads + count (signals producer) threads
  pub freed :
      0 < count (waits_for consumer) threads
      → buffer_size
        ≤ b.occupied + count (active producer) threads + count (signals consumer) threads

pub record Inv (s : State) : Type 0 where
  pub ring : IsRing s.buffer
  pub counts : Counts s.buffer s.locked s.threads
