-- ===== src/Threads/Progress.antt =====
-- The threads never block each other: a state of the invariant has a step, or all threads are done.
use seccap_sgx_bank.Base.{
  ℕ, zero, suc, ◌+◌, ◌<◌, ◌≤◌, ◌≡◌, ◌⊎◌, inl, inr, refl, true, false, Bool-cases, some, List, [],
  ◌∷◌, get_elem?, All, All-imp, arith, subst, sym,
}
use seccap_sgx_bank.Threads.Count.{
  count, count-add, count-le, count-get, count-find, count-zero, positive,
}
use seccap_sgx_bank.Threads.Inv.{holds, signals, left, runs, active, Counts, Inv}
use seccap_sgx_bank.Threads.{
  CondBuffer, must_wait, Role, producer, consumer, Point, entering, testing, waiting, woken,
  storing, signalling, unlocking, Thread, waits_for, State, Move, lock, relock, sleep, pass, act,
  unlock, Step, pick, lose, wake,
}

-- There is a step.
abbrev Goes : State → Type 0
Goes s = (t : State) × Step s t

-- The thread has left its loop.
abbrev pub IsDone : Thread → Type 0
IsDone (r, p) = p ≡ entering 0

-- A signal that a thread waits for.
wake-Goes :
    (s : State) (i : ℕ) (r : Role) (n : ℕ) (j : ℕ) (t : Thread)
    → get_elem? s.threads i ≡ some (r, signalling n)
    → get_elem? s.threads j ≡ some t
    → 0 < waits_for r t
    → Goes s
wake-Goes s i producer n j (consumer, waiting m) e at h = (_, wake i j e at refl)
wake-Goes s i consumer n j (producer, waiting m) e at h = (_, wake i j e at refl)
wake-Goes s i r n j (q, p) e at h = absurd (omega arith)

signal-Goes :
    (s : State) (i : ℕ) (r : Role) (n : ℕ) → get_elem? s.threads i ≡ some (r, signalling n) → Goes s
signal-Goes s i r n e = elim (positive (count (waits_for r) s.threads)) [
  | inl quiet ↦ (_, lose i e quiet)
  | inr heard ↦
      let (j, t, at, waits) = count-find (waits_for r) s.threads heard in
      wake-Goes s i r n j t e at waits
]

-- A thread that holds the mutex goes on.
holder-Goes :
    (s : State) (i : ℕ) (t : Thread) → get_elem? s.threads i ≡ some t → 0 < holds t → Goes s
holder-Goes s i (r, entering n) e h = absurd (omega arith)
holder-Goes s i (r, waiting n) e h = absurd (omega arith)
holder-Goes s i (r, woken n) e h = absurd (omega arith)
holder-Goes s i (r, testing n) e h = elim (Bool-cases (must_wait r s.buffer)) [
  | inl full ↦ (_, pick i e (sleep full))
  | inr free ↦ (_, pick i e (pass free))
]
holder-Goes s i (r, storing n) e h = (_, pick i e act)
holder-Goes s i (r, signalling n) e h = signal-Goes s i r n e
holder-Goes s i (r, unlocking n) e h = (_, pick i e unlock)

-- Where the mutex is free, a thread that does not wait and has rounds to go takes it.
runner-Goes :
    (s : State) (i : ℕ) (r : Role) (p : Point)
    → get_elem? s.threads i ≡ some (r, p)
    → 0 < runs p
    → holds (r, p) ≡ 0
    → s.locked ≡ false
    → Goes s
runner-Goes s i r (entering (suc n)) e h out free = (
  _,
  pick i e
      (subst (λ l. Move s.buffer r l (entering (suc n)) s.buffer true (testing n)) (sym free) lock),
)
runner-Goes s i r (woken n) e h out free = (
  _,
  pick i e (subst (λ l. Move s.buffer r l (woken n) s.buffer true (testing n)) (sym free) relock),
)
runner-Goes s i r p e h out free = absurd (omega arith)

abbrev other : Role → Role
other producer = consumer
other consumer = producer

-- A thread with rounds to go runs or waits.
left-asleep : (r : Role) (t : Thread) → 0 < left r t → active r t ≡ 0 → 0 < waits_for (other r) t
left-asleep r t h e = ground arith

waits-left : (r : Role) (t : Thread) → waits_for (other r) t ≤ left r t
waits-left r t = ground arith

signals-holds : (r : Role) (t : Thread) → signals r t ≤ holds t
signals-holds r t = ground arith

active-runs : (t : Thread) → active producer t + active consumer t ≤ runs (t.1)
active-runs t = ground arith

-- Whether a thread runs, waits or holds the mutex.
busy : Thread → ℕ
busy t =
    active producer t + active consumer t + (waits_for producer t + waits_for consumer t) + holds t

IsDone-busy : (t : Thread) → busy t ≡ 0 → IsDone t
unfolding busy
IsDone-busy (producer, entering zero) h = refl
IsDone-busy (consumer, entering zero) h = refl
IsDone-busy (r, p) h = absurd (omega arith)

-- Where no thread of a role runs and one has rounds to go, one waits.
count-asleep :
    (r : Role) (threads : List Thread)
    → 0 < count (left r) threads
    → count (active r) threads ≡ 0
    → 0 < count (waits_for (other r)) threads
count-asleep r threads h e =
    let (i, t, at, rounds_left) = count-find (left r) threads h in
    let asleep = left-asleep r t rounds_left (omega (arith, count-get (active r) threads i at)) in
    omega (arith, count-get (waits_for (other r)) threads i at)

-- While nobody runs and the mutex is free, nobody waits.
nobody-waits :
    (b : CondBuffer) (threads : List Thread)
    → Counts b false threads
    → count (active producer) threads ≡ 0
    → count (active consumer) threads ≡ 0
    → (count (waits_for producer) threads ≡ 0) × (count (waits_for consumer) threads ≡ 0)
nobody-waits b threads c p q =
    let silent_p = count-le (signals producer) holds (signals-holds producer) threads in
    let silent_c = count-le (signals consumer) holds (signals-holds consumer) threads in
    let more = count-le (waits_for producer) (left consumer) (waits-left consumer) threads in
    let less = count-le (waits_for consumer) (left producer) (waits-left producer) threads in
    elim (positive (count (waits_for producer) threads)) [
      | inl fed ↦ elim (positive (count (waits_for consumer) threads)) [
        | inl freed ↦ (fed, freed)
        | inr starved ↦
            let full = c.freed starved in
            let h = count-asleep consumer threads (omega (arith, c.balance)) q in
            absurd (omega (arith, c.lock))
      ]
      | inr starved ↦
          let empty = c.fed starved in
          let h = count-asleep producer threads (omega (arith, c.balance, c.lock)) p in
          let full = c.freed h in absurd (omega (arith, c.lock))
    ]

count-busy :
    (threads : List Thread)
    → count holds threads ≡ 0
    → count (active producer) threads + count (active consumer) threads ≡ 0
    → (count (waits_for producer) threads ≡ 0) × (count (waits_for consumer) threads ≡ 0)
    → count busy threads ≡ 0
unfolding busy
count-busy [] h a w = refl
count-busy (t ∷ threads) h a (w, w') =
    omega (arith, count-busy threads (omega arith) (omega arith) (omega arith, omega arith))

free-Goes :
    (s : State) → Counts s.buffer false s.threads → s.locked ≡ false → All IsDone s.threads ⊎ Goes s
free-Goes s c free =
    elim (positive (count (active producer) s.threads + count (active consumer) s.threads)) [
      | inl idle ↦
          let quiet = nobody-waits s.buffer s.threads c (omega arith) (omega arith) in
          inl (
            All-imp (λ t. busy t ≡ 0) IsDone s.threads IsDone-busy
              (count-zero busy s.threads (count-busy s.threads c.lock idle quiet)))
      | inr runners ↦
          let both = count-add (active producer) (active consumer) s.threads in
          let (i, t, at, h) =
            count-find (λ t. active producer t + active consumer t) s.threads (omega arith) in
          let out = count-get holds s.threads i at in
          let lock_free = c.lock in
          let runs_too = active-runs t in
          inr (runner-Goes s i (t.0) (t.1) at (omega arith) (omega arith) free)
    ]

-- In every state of the invariant a thread has a step, unless all have left their loops.
pub Inv-Goes : (s : State) → Inv s → All IsDone s.threads ⊎ ((t : State) × Step s t)
Inv-Goes s v =
    let c = v.counts in
    elim (Bool-cases s.locked) [
      | inl held ↦
          let (i, t, at, h) = count-find holds s.threads (let lock = c.lock in ground arith) in
          inr (holder-Goes s i t at h)
      | inr free ↦ free-Goes s (subst (λ l. Counts s.buffer l s.threads) free c) free
    ]
