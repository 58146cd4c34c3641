-- ===== src/Threads/Steps.antt =====
-- Every step of the threads keeps the invariant.
use seccap_sgx_bank.Base.{ℕ, ◌≡◌, Bool, some, List, get_elem?, get_elem?-set_ne, set, ◌∙◌, arith}
use seccap_sgx_bank.Threads.Count.{count, count-set}
use seccap_sgx_bank.Threads.Inv.{locks-le, holds, stores, signals, left, active, Counts, Inv}
use seccap_sgx_bank.Threads.Moves.{Moved, Move-IsRing, Move-lock, Move-room, Move-balance}
use seccap_sgx_bank.Threads.Waits.{Move-fed, Move-freed}
use seccap_sgx_bank.Threads.{
  Move, CondBuffer, Role, producer, consumer, Point, waiting, woken, signalling, unlocking, Thread,
  waits_for, State, Step, pick, lose, wake,
}

module _ (threads threads' : List Thread) where
  Move-Counts :
      (r : Role) {b b' : CondBuffer} {l l' : Bool} {p p' : Point}
      → Move b r l p b' l' p'
      → Moved threads threads' r p p'
      → Counts b l threads
      → Counts b' l' threads'
  Move-Counts r {l' = l'} mv f c =
      let held = Move-lock threads threads' r mv f c in
      let fits = Move-room threads threads' r mv f c (omega (arith, held, locks-le l')) in
      record {
        lock = held;
        room = fits.0;
        items = fits.1;
        balance = Move-balance threads threads' r mv f c;
        fed = Move-fed threads threads' r mv f c;
        freed = Move-freed threads threads' r mv f c;
      }

-- A signal that nobody waits for.
lose-Counts :
    (threads threads' : List Thread) (r : Role) (n : ℕ) {b : CondBuffer} {l : Bool}
    → Moved threads threads' r (signalling n) (unlocking n)
    → count (waits_for r) threads ≡ 0
    → Counts b l threads
    → Counts b l threads'
lose-Counts threads threads' producer n f e c = record {
  lock = omega (arith, f holds, c.lock);
  room = omega (arith, f (stores producer), c.room);
  items = omega (arith, f (stores consumer), c.items);
  balance = omega (arith, f (left producer), f (left consumer), c.balance);
  fed = λ h. absurd (omega (arith, f (waits_for producer)));
  freed = λ h. omega (
    arith,
    f (active producer),
    f (signals consumer),
    c.freed (omega (arith, f (waits_for consumer))),
  );
}
lose-Counts threads threads' consumer n f e c = record {
  lock = omega (arith, f holds, c.lock);
  room = omega (arith, f (stores producer), c.room);
  items = omega (arith, f (stores consumer), c.items);
  balance = omega (arith, f (left producer), f (left consumer), c.balance);
  fed = λ h. omega (
    arith,
    f (active consumer),
    f (signals producer),
    c.fed (omega (arith, f (waits_for producer))),
  );
  freed = λ h. absurd (omega (arith, f (waits_for consumer)));
}

-- A signal that wakes a thread.
wake-Counts :
    (threads threads₁ threads₂ : List Thread) (r q : Role) (n m : ℕ) {b : CondBuffer} {l : Bool}
    → Moved threads threads₁ r (signalling n) (unlocking n)
    → Moved threads₁ threads₂ q (waiting m) (woken m)
    → waits_for r (q, waiting m) ≡ 1
    → Counts b l threads
    → Counts b l threads₂
wake-Counts threads threads₁ threads₂ producer producer n m f g e c = cc
wake-Counts threads threads₁ threads₂ consumer consumer n m f g e c = cc
wake-Counts threads threads₁ threads₂ r q n m f g e c = record {
  lock = omega (arith, f holds, g holds, c.lock);
  room = omega (arith, f (stores producer), g (stores producer), c.room);
  items = omega (arith, f (stores consumer), g (stores consumer), c.items);
  balance = omega (
    arith,
    f (left producer),
    f (left consumer),
    g (left producer),
    g (left consumer),
    c.balance,
  );
  fed = λ h. omega (
    arith,
    f (active consumer),
    g (active consumer),
    f (signals producer),
    g (signals producer),
    c.fed (omega (arith, f (waits_for producer), g (waits_for producer))),
  );
  freed = λ h. omega (
    arith,
    f (active producer),
    g (active producer),
    f (signals consumer),
    g (signals consumer),
    c.freed (omega (arith, f (waits_for consumer), g (waits_for consumer))),
  );
}

moved :
    (threads : List Thread) (i : ℕ) (r : Role) (p p' : Point)
    → get_elem? threads i ≡ some (r, p)
    → Moved threads (set threads i (r, p')) r p p'
moved threads i r p p' e f = count-set f threads i (r, p') e

pub Step-Inv : {s t : State} → Step s t → Inv s → Inv t
Step-Inv {s} (pick i {r} {p} {p'} e mv) v =
    let f = moved s.threads i r p p' e in
    record {
      ring = Move-IsRing s.threads (set s.threads i (r, p')) r mv f v.counts v.ring;
      counts = Move-Counts s.threads (set s.threads i (r, p')) r mv f v.counts;
    }
Step-Inv {s} (lose i {r} {n} e quiet) v = record {
  ring = v.ring;
  counts =
      lose-Counts s.threads (set s.threads i (r, unlocking n)) r n
        (moved s.threads i r (signalling n) (unlocking n) e) quiet v.counts;
}
Step-Inv {s} (wake i j {r} {q} {n} {m} e at waits) v =
    let threads₁ = set s.threads i (r, unlocking n) in
    record {
      ring = v.ring;
      counts =
          wake-Counts s.threads threads₁ (set threads₁ j (q, woken m)) r q n m
            (moved s.threads i r (signalling n) (unlocking n) e)
            (moved threads₁ j q (waiting m) (woken m)
              (get_elem?-set_ne s.threads i j (r, unlocking n) (λ same. cc) ∙ at))
            waits v.counts;
    }
