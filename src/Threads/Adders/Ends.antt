-- ===== src/Threads/Adders/Ends.antt =====
-- The adders never block each other, and end.
use seccap_sgx_bank.Base.{
  ℕ, zero, suc, ◌+◌, ◌*◌, ◌<◌, ◌≤◌, ◌≡◌, ◌⊎◌, inl, inr, refl, sym, subst, Bool, true, false,
  Bool-cases, some, get_elem?, All, All-imp, arith,
}
use seccap_sgx_bank.CLib.{u64_mod}
use seccap_sgx_bank.Threads.Count.{count, count-set, count-get, count-find, count-zero, positive}
use seccap_sgx_bank.Threads.Inv.{locks}
use seccap_sgx_bank.Threads.Adders.Total.{holds, AddRun-AddInv, AddRun-counter}
use seccap_sgx_bank.Threads.Adders.{
  Adder, looping, adding, reading, written, tested, joined, Sum, Adds, lock, read, write, compare,
  unlock, join, AddStep, pick, AddRun, begin, later,
}

-- The steps that an adder has before it.
abbrev effort : Adder → ℕ
effort (looping n ret) = 5 * n + 1
effort (adding n ret) = 5 * n + 5
effort (reading n ret tmp) = 5 * n + 4
effort (written n ret) = 5 * n + 3
effort (tested n ret) = 5 * n + 2
effort joined = 0

Adds-effort :
    {loops g g' c c' : ℕ} {l l' : Bool} {a a' : Adder}
    → Adds loops g l c a g' l' c' a'
    → effort a' + 1 ≡ effort a
Adds-effort lock = omega arith
Adds-effort mv = omega arith

AddRun-effort :
    (loops k : ℕ) (s : Sum) → AddRun loops k s → k + count effort s.adders ≡ 20 * loops + 4
AddRun-effort loops k s begin = omega arith
AddRun-effort loops k s (later {k = j} {s = t} r (pick i {a} {a'} e adds)) =
    omega (arith, count-set effort t.adders i a' e, Adds-effort adds, AddRun-effort loops j t r)

module _ (loops : ℕ) where
  abbrev Goes : Sum → Type 0
  Goes s = (t : Sum) × AddStep loops s t

  -- An adder that holds the mutex goes on.
  holder-Goes : (s : Sum) (i : ℕ) (a : Adder) → get_elem? s.adders i ≡ some a → 0 < holds a → Goes s
  holder-Goes s i (adding n ret) e h = (_, pick i e read)
  holder-Goes s i (reading n ret tmp) e h = (_, pick i e write)
  holder-Goes s i (written n ret) e h = (_, pick i e compare)
  holder-Goes s i (tested n ret) e h = (_, pick i e unlock)
  holder-Goes s i a e h = absurd (omega arith)

  -- Where the mutex is free, any other goes on.
  free-Goes :
      (s : Sum) (i : ℕ) (a : Adder)
      → get_elem? s.adders i ≡ some a
      → 0 < effort a
      → holds a ≡ 0
      → s.locked ≡ false
      → Goes s
  free-Goes s i (looping zero ret) e h out free = (_, pick i e join)
  free-Goes s i (looping (suc n) ret) e h out free = (
    _,
    pick i e (
        subst
          (λ l.
            Adds loops s.global_counter l s.counter (looping (suc n) ret) s.global_counter true
              s.counter (adding n ret))
          (sym free) lock),
  )
  free-Goes s i a e h out free = absurd (omega arith)

  joined-effort : (a : Adder) → effort a ≡ 0 → a ≡ joined
  joined-effort joined h = refl
  joined-effort a h = absurd (omega arith)

  Sum-Goes :
      (s : Sum) → count holds s.adders ≡ locks s.locked → All (λ a. a ≡ joined) s.adders ⊎ Goes s
  Sum-Goes s lock_is = elim (Bool-cases s.locked) [
    | inl held ↦
        let (i, a, at, h) = count-find holds s.adders (ground arith) in inr (holder-Goes s i a at h)
    | inr free ↦ elim (positive (count effort s.adders)) [
      | inl over ↦ inl (
          All-imp (λ a. effort a ≡ 0) (λ a. a ≡ joined) s.adders joined-effort
            (count-zero effort s.adders over))
      | inr more ↦
          let (i, a, at, h) = count-find effort s.adders more in
          let few : holds a ≤ count holds s.adders = count-get holds s.adders i at in
          let none_holds : count holds s.adders ≡ 0 = ground arith in
          inr (free-Goes s i a at h (omega arith) free)
    ]
  ]

-- In whatever order the four adders run, no run has more than 20 steps for each of LOOPS_PER_THREAD
-- and four, and some adder can go on, unless all have returned; then the application's counter is
-- four times LOOPS_PER_THREAD, which is what it asserts. LOOPS_PER_THREAD is positive, and four
-- times it fits 64 bits.
pub AddRun-ends :
    (loops k : ℕ) (s : Sum)
    → 0 < loops
    → 4 * loops < u64_mod
    → AddRun loops k s
    → (k ≤ 20 * loops + 4)
      × ((All (λ a. a ≡ joined) s.adders × (s.counter ≡ 4 * loops))
          ⊎ ((t : Sum) × AddStep loops s t))
AddRun-ends loops k s h small r =
    let v = AddRun-AddInv loops k s h small r in
    (
      omega (arith, AddRun-effort loops k s r),
      elim (Sum-Goes loops s v.mutex) [
        | inl done ↦ inl (done, AddRun-counter loops k s h small r done)
        | inr goes ↦ inr goes
      ],
    )
