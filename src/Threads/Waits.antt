-- ===== src/Threads/Waits.antt =====
-- A step that concerns one thread keeps what the invariant says of waiting threads.
use seccap_sgx_bank.Base.{◌+◌, ◌<◌, ◌≤◌, Bool, List, arith}
use seccap_sgx_bank.Threads.Count.{count}
use seccap_sgx_bank.Threads.Inv.{signals, active, Counts}
use seccap_sgx_bank.Threads.{
  CondBuffer, buffer_size, produce, consume, Role, producer, consumer, Point, Thread, waits_for,
  Move, lock, sleep,
}
use seccap_sgx_bank.Threads.Moves.{Moved, guard}

module _ (threads threads' : List Thread) where
  pub Move-fed :
      (r : Role) {b b' : CondBuffer} {l l' : Bool} {p p' : Point}
      → Move b r l p b' l' p'
      → Moved threads threads' r p p'
      → Counts b l threads
      → 0 < count (waits_for producer) threads'
      → b'.occupied ≤ count (active consumer) threads' + count (signals producer) threads'
  unfolding produce consume
  Move-fed producer lock f c h = omega (
    arith,
    f (active consumer),
    f (signals producer),
    f (waits_for producer),
    c.fed (omega (arith, f (waits_for producer))),
  )
  Move-fed producer mv f c h = ground (
    arith,
    f (active consumer),
    f (signals producer),
    f (waits_for producer),
    c.fed (omega (arith, f (waits_for producer))),
    guard mv,
  )
  Move-fed consumer lock f c h = omega (
    arith,
    f (active consumer),
    f (signals producer),
    f (waits_for producer),
    c.fed (omega (arith, f (waits_for producer))),
  )
  Move-fed consumer (sleep g) f c h = ground arith
  Move-fed consumer mv f c h = ground (
    arith,
    f (active consumer),
    f (signals producer),
    f (waits_for producer),
    c.fed (omega (arith, f (waits_for producer))),
    guard mv,
  )

  pub Move-freed :
      (r : Role) {b b' : CondBuffer} {l l' : Bool} {p p' : Point}
      → Move b r l p b' l' p'
      → Moved threads threads' r p p'
      → Counts b l threads
      → 0 < count (waits_for consumer) threads'
      → buffer_size
        ≤ b'.occupied + count (active producer) threads' + count (signals consumer) threads'
  unfolding produce consume
  Move-freed producer lock f c h = omega (
    arith,
    f (active producer),
    f (signals consumer),
    f (waits_for consumer),
    c.freed (omega (arith, f (waits_for consumer))),
  )
  Move-freed producer (sleep g) f c h = ground arith
  Move-freed producer mv f c h = ground (
    arith,
    f (active producer),
    f (signals consumer),
    f (waits_for consumer),
    c.freed (omega (arith, f (waits_for consumer))),
    guard mv,
  )
  Move-freed consumer lock f c h = omega (
    arith,
    f (active producer),
    f (signals consumer),
    f (waits_for consumer),
    c.freed (omega (arith, f (waits_for consumer))),
  )
  Move-freed consumer mv f c h = ground (
    arith,
    f (active producer),
    f (signals consumer),
    f (waits_for consumer),
    c.freed (omega (arith, f (waits_for consumer))),
    guard mv,
  )
