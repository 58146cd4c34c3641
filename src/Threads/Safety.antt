-- ===== src/Threads/Safety.antt =====
-- Runs of the threads of `ecall_thread_functions`, in any order.
use seccap_sgx_bank.Base.{
  ℕ, ◌+◌, ◌-◌, ◌*◌, ◌%◌, ◌<◌, ◌≤◌, ◌≡◌, ◌⊎◌, inl, inr, refl, ◌∙◌, subst, some, List, [], ◌∷◌,
  get_elem?, get_elem?-set_ne, set, Bool, All, arith,
}
use seccap_sgx_bank.Threads.Count.{count, count-set}
use seccap_sgx_bank.Threads.Ring.{slot, empty_buffer-IsRing}
use seccap_sgx_bank.Threads.Inv.{left, Inv}
use seccap_sgx_bank.Threads.Steps.{Step-Inv}
use seccap_sgx_bank.Threads.Progress.{IsDone, Inv-Goes}
use seccap_sgx_bank.Threads.{
  CondBuffer, buffer_size, Role, producer, consumer, Point, entering, testing, waiting, woken,
  storing, signalling, unlocking, Thread, State, Move, lock, Step, pick, lose, wake, Run, begin,
  later,
}

-- Every state that is reached keeps the invariant: the mutex is held by one thread at most, and
-- exactly while it is locked; `occupied` stays between 0 and BUFFER_SIZE and `nextin` is that many
-- places behind `nextout`; every occupied place holds its number and every other 0; a thread that
-- has passed its test finds room or an item; what is still to be produced and what is in the buffer
-- is what is still to be consumed; and while a thread waits, its signal is still to come for every
-- item or free place that no running thread will take.
pub Run-Inv : (loops k : ℕ) (s : State) → Run loops k s → Inv s
Run-Inv loops k s begin = record {
  ring = empty_buffer-IsRing;
  counts = record {
    lock = refl;
    room = omega arith;
    items = omega arith;
    balance = omega arith;
    fed = λ h. absurd (omega arith);
    freed = λ h. absurd (omega arith);
  };
}
Run-Inv loops k s (later {k = j} {s = before} r step) = Step-Inv step (Run-Inv loops j before r)

-- What a thread still has to do, with the wait that its signals can cause.
effort_at : Point → ℕ
effort_at (entering n) = 10 * n
effort_at (unlocking n) = 10 * n + 1
effort_at (signalling n) = 10 * n + 7
effort_at (storing n) = 10 * n + 8
effort_at (waiting n) = 10 * n + 8
effort_at (testing n) = 10 * n + 9
effort_at (woken n) = 10 * n + 10

effort : Thread → ℕ
unfolding effort_at
effort (r, p) = effort_at p

Move-effort :
    {r : Role} {b b' : CondBuffer} {l l' : Bool} {p p' : Point}
    → Move b r l p b' l' p'
    → effort_at p' < effort_at p
unfolding effort_at
Move-effort lock = omega arith
Move-effort mv = omega arith

-- Every step leaves less to do, also one that wakes a thread.
Step-effort : {s t : State} → Step s t → count effort t.threads < count effort s.threads
unfolding effort effort_at
Step-effort {s} (pick i {r} {p} {p'} e mv) =
    omega (arith, count-set effort s.threads i (r, p') e, Move-effort mv)
Step-effort {s} (lose i {r} {n} e quiet) =
    omega (arith, count-set effort s.threads i (r, unlocking n) e)
Step-effort {s} (wake i j {r} {q} {n} {m} e at waits) =
    let threads₁ = set s.threads i (r, unlocking n) in
    let there = get_elem?-set_ne s.threads i j (r, unlocking n) (λ same. cc) ∙ at in
    omega (
      arith,
      count-set effort s.threads i (r, unlocking n) e,
      count-set effort threads₁ j (q, woken m) there,
    )

Run-effort : (loops k : ℕ) (s : State) → Run loops k s → k + count effort s.threads ≤ 80 * loops
unfolding effort effort_at
Run-effort loops k s begin = omega arith
Run-effort loops k s (later {k = j} {s = before} r step) =
    omega (arith, Step-effort step, Run-effort loops j before r)

-- No run is longer than 80 steps for each of LOOPS_PER_THREAD, however the threads are run: none of
-- them can wait, be woken and wait again without end.
pub Run-length : (loops k : ℕ) (s : State) → Run loops k s → k ≤ 80 * loops
Run-length loops k s r = omega (arith, Run-effort loops k s r)

IsDone-left : (r : Role) (t : Thread) → IsDone t → left r t ≡ 0
IsDone-left producer (producer, p) h = rw h refl
IsDone-left producer (consumer, p) h = refl
IsDone-left consumer (producer, p) h = refl
IsDone-left consumer (consumer, p) h = rw h refl

done-left : (r : Role) (threads : List Thread) → All IsDone threads → count (left r) threads ≡ 0
done-left r [] h = refl
done-left r (t ∷ threads) h = omega (arith, IsDone-left r t h.0, done-left r threads h.1)

-- In every state that is reached some thread can go on, unless all of them have left their loops;
-- then the buffer is empty: nothing is occupied, `nextin` is `nextout`, and every slot holds 0.
pub Run-progress :
    (loops k : ℕ) (s : State)
    → Run loops k s
    → (All IsDone s.threads
        × (s.buffer.occupied ≡ 0)
        × (s.buffer.nextin ≡ s.buffer.nextout)
        × ((j : ℕ) → j < buffer_size → get_elem? s.buffer.buf j ≡ some 0))
      ⊎ ((t : State) × Step s t)
Run-progress loops k s r =
    let v = Run-Inv loops k s r in
    let c = v.counts in
    let ring = v.ring in
    elim (Inv-Goes s v) [
      | inr goes ↦ inr goes
      | inl done ↦
          let empty : s.buffer.occupied ≡ 0 = omega (
            arith,
            c.balance,
            done-left producer s.threads done,
            done-left consumer s.threads done,
          ) in
          inl (
            done,
            empty,
            omega (arith, ring.at_in, ring.at_out),
            λ j h.
                let k = (j + buffer_size - s.buffer.nextout) % buffer_size in
                let there : slot s.buffer k ≡ j = omega (arith, ring.at_out) in
                subst (λ i. get_elem? s.buffer.buf i ≡ some 0) there
                  (ring.cleared k (omega arith) (omega arith)),
          )
    ]
