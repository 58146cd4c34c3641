-- ===== src/Threads/Moves.antt =====
-- A step that concerns one thread keeps the invariant.
use seccap_sgx_bank.Base.{ℕ, ◌+◌, ◌≤◌, ◌≡◌, Bool, true, false, List, arith}
use seccap_sgx_bank.Threads.Count.{count, count-le, count-add}
use seccap_sgx_bank.Threads.Ring.{IsRing, produce-IsRing, consume-IsRing}
use seccap_sgx_bank.Threads.Inv.{locks-le, locks, holds, stores, left, Counts}
use seccap_sgx_bank.Threads.{
  CondBuffer, buffer_size, produce, consume, must_wait, Role, producer, consumer, Point, Thread,
  Move, lock, relock, sleep, pass, act, unlock,
}

stores-le : (t : Thread) → stores producer t + stores consumer t ≤ holds t
stores-le t = ground arith

-- The threads that are about to change the buffer hold the mutex.
stores-holds :
    (threads : List Thread)
    → count (stores producer) threads + count (stores consumer) threads ≤ count holds threads
stores-holds threads = omega (
  arith,
  count-add (stores producer) (stores consumer) threads,
  count-le (λ t. stores producer t + stores consumer t) holds stores-le threads,
)

-- How the sums change where a thread goes from one point to another.
abbrev pub Moved : List Thread → List Thread → Role → Point → Point → Type 0
Moved threads threads' r p p' =
    (f : Thread → ℕ) → count f threads' + f (r, p) ≡ count f threads + f (r, p')

-- The premise of a step, for the clauses below that take the steps together.
abbrev pub Guard :
    {b b' : CondBuffer} {r : Role} {l l' : Bool} {p p' : Point} → Move b r l p b' l' p' → Type 0
Guard {b = b} {r = r} (sleep _) = must_wait r b ≡ true
Guard {b = b} {r = r} (pass _) = must_wait r b ≡ false
Guard _ = Unit

pub guard :
    {b b' : CondBuffer} {r : Role} {l l' : Bool} {p p' : Point} (mv : Move b r l p b' l' p')
    → Guard mv
guard (sleep g) = g
guard (pass g) = g
guard _ = tt

module _ (threads threads' : List Thread) where
  pub Move-IsRing :
      (r : Role) {b b' : CondBuffer} {l l' : Bool} {p p' : Point}
      → Move b r l p b' l' p'
      → Moved threads threads' r p p'
      → Counts b l threads
      → IsRing b
      → IsRing b'
  Move-IsRing producer {b} act f c v =
      produce-IsRing b (omega (arith, f (stores producer), c.room)) v
  Move-IsRing consumer {b} act f c v =
      consume-IsRing b (omega (arith, f (stores consumer), c.items)) (omega (arith, c.room)) v
  Move-IsRing r lock f c v = v
  Move-IsRing r relock f c v = v
  Move-IsRing r (sleep g) f c v = v
  Move-IsRing r (pass g) f c v = v
  Move-IsRing r unlock f c v = v

  pub Move-lock :
      (r : Role) {b b' : CondBuffer} {l l' : Bool} {p p' : Point}
      → Move b r l p b' l' p'
      → Moved threads threads' r p p'
      → Counts b l threads
      → count holds threads' ≡ locks l'
  Move-lock r lock f c = omega (arith, f holds, c.lock)
  Move-lock r relock f c = omega (arith, f holds, c.lock)
  Move-lock r {l = l} (sleep g) f c = omega (arith, f holds, c.lock, locks-le l)
  Move-lock r (pass g) f c = omega (arith, f holds, c.lock)
  Move-lock r act f c = omega (arith, f holds, c.lock)
  Move-lock r {l = l} unlock f c = omega (arith, f holds, c.lock, locks-le l)

  pub Move-room :
      (r : Role) {b b' : CondBuffer} {l l' : Bool} {p p' : Point}
      → Move b r l p b' l' p'
      → Moved threads threads' r p p'
      → Counts b l threads
      → count holds threads' ≤ 1
      → (b'.occupied + count (stores producer) threads' ≤ buffer_size)
        × (count (stores consumer) threads' ≤ b'.occupied)
  unfolding produce consume
  Move-room producer lock f c h = omega (
    arith,
    f (stores producer),
    f (stores consumer),
    f holds,
    c.room,
    c.items,
    stores-holds threads',
  )
  Move-room producer mv f c h = ground (
    arith,
    f (stores producer),
    f (stores consumer),
    f holds,
    c.room,
    c.items,
    stores-holds threads',
    guard mv,
  )
  Move-room consumer lock f c h = omega (
    arith,
    f (stores producer),
    f (stores consumer),
    f holds,
    c.room,
    c.items,
    stores-holds threads',
  )
  Move-room consumer mv f c h = ground (
    arith,
    f (stores producer),
    f (stores consumer),
    f holds,
    c.room,
    c.items,
    stores-holds threads',
    guard mv,
  )

  pub Move-balance :
      (r : Role) {b b' : CondBuffer} {l l' : Bool} {p p' : Point}
      → Move b r l p b' l' p'
      → Moved threads threads' r p p'
      → Counts b l threads
      → count (left producer) threads' + b'.occupied ≡ count (left consumer) threads'
  unfolding produce consume
  Move-balance producer lock f c = omega (arith, f (left producer), f (left consumer), c.balance)
  Move-balance producer mv f c =
      ground (arith, f (left producer), f (left consumer), c.balance, guard mv)
  Move-balance consumer lock f c = omega (arith, f (left producer), f (left consumer), c.balance)
  Move-balance consumer mv f c = ground (
    arith,
    f (left producer),
    f (left consumer),
    c.balance,
    f (stores consumer),
    c.items,
    guard mv,
  )
