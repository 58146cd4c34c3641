-- ===== src/Tests/Threading.antt =====
-- Witnesses of the theorems on the threads: a consumer waits, and is woken by the producer.
use seccap_sgx_bank.Base.{ℕ, suc, ◌*◌, ◌<◌, ◌≤◌, ◌≡◌, ◌+◌, ◌⊎◌, refl, some, get_elem?, All, arith}
use seccap_sgx_bank.Threads.{
  loops_per_thread, buffer_size, State, Step, Run, begin, later, pick, wake, lock, sleep, pass, act,
  unlock,
}
use seccap_sgx_bank.Threads.Adders.{Adds, AddStep, AddRun, Sum, joined}
use seccap_sgx_bank.Threads.Adders.Ends.{AddRun-ends}
use seccap_sgx_bank.Threads.Inv.{Inv}
use seccap_sgx_bank.Threads.Progress.{IsDone}
use seccap_sgx_bank.Threads.Safety.{Run-Inv, Run-progress, Run-length}

-- One more step of a run.
abbrev then_step :
    {k : ℕ} (r : (s : State) × Run loops_per_thread k s)
    → ((t : State) × Step (r.0) t)
    → (t : State) × Run loops_per_thread (suc k) t
then_step (s, r) (t, step) = (t, later r step)

abbrev waited : (s : State) × Run loops_per_thread 2 s
waited = then_step (then_step (_, begin) (_, pick 0 refl lock)) (_, pick 0 refl (sleep refl))

abbrev produced : (s : State) × Run loops_per_thread 5 s
produced =
    then_step (then_step (then_step waited (_, pick 1 refl lock)) (_, pick 1 refl (pass refl)))
      (_, pick 1 refl act)

abbrev woken_up : (s : State) × Run loops_per_thread 7 s
woken_up = then_step (then_step produced (_, wake 1 0 refl refl refl)) (_, pick 1 refl unlock)

Run-Inv_example : Inv (woken_up.0)
Run-Inv_example = Run-Inv loops_per_thread 7 (woken_up.0) (woken_up.1)

Run-length_example : 7 ≤ 80 * loops_per_thread
Run-length_example = Run-length loops_per_thread 7 (woken_up.0) (woken_up.1)

Run-progress_example :
    let s = woken_up.0 in
    (All IsDone s.threads
      × (s.buffer.occupied ≡ 0)
      × (s.buffer.nextin ≡ s.buffer.nextout)
      × ((j : ℕ) → j < buffer_size → get_elem? s.buffer.buf j ≡ some 0))
    ⊎ ((t : State) × Step s t)
Run-progress_example = Run-progress loops_per_thread 7 (woken_up.0) (woken_up.1)

-- One more step of the adders, with one round each.
abbrev then_add :
    {k : ℕ} (r : (s : Sum) × AddRun 1 k s)
    → ((t : Sum) × AddStep 1 (r.0) t)
    → (t : Sum) × AddRun 1 (suc k) t
then_add (s, r) (t, step) = (t, AddRun.later r step)

abbrev first_joined : (s : Sum) × AddRun 1 6 s
first_joined =
    then_add
      (then_add
        (then_add
          (then_add
            (then_add (then_add (_, AddRun.begin) (_, AddStep.pick 0 refl Adds.lock))
              (_, AddStep.pick 0 refl Adds.read))
            (_, AddStep.pick 0 refl Adds.write))
          (_, AddStep.pick 0 refl Adds.compare))
        (_, AddStep.pick 0 refl Adds.unlock))
      (_, AddStep.pick 0 refl Adds.join)

abbrev second_joined : (s : Sum) × AddRun 1 12 s
second_joined =
    then_add
      (then_add
        (then_add
          (then_add
            (then_add (then_add first_joined (_, AddStep.pick 1 refl Adds.lock))
              (_, AddStep.pick 1 refl Adds.read))
            (_, AddStep.pick 1 refl Adds.write))
          (_, AddStep.pick 1 refl Adds.compare))
        (_, AddStep.pick 1 refl Adds.unlock))
      (_, AddStep.pick 1 refl Adds.join)

abbrev third_joined : (s : Sum) × AddRun 1 18 s
third_joined =
    then_add
      (then_add
        (then_add
          (then_add
            (then_add (then_add second_joined (_, AddStep.pick 2 refl Adds.lock))
              (_, AddStep.pick 2 refl Adds.read))
            (_, AddStep.pick 2 refl Adds.write))
          (_, AddStep.pick 2 refl Adds.compare))
        (_, AddStep.pick 2 refl Adds.unlock))
      (_, AddStep.pick 2 refl Adds.join)

abbrev fourth_joined : (s : Sum) × AddRun 1 24 s
fourth_joined =
    then_add
      (then_add
        (then_add
          (then_add
            (then_add (then_add third_joined (_, AddStep.pick 3 refl Adds.lock))
              (_, AddStep.pick 3 refl Adds.read))
            (_, AddStep.pick 3 refl Adds.write))
          (_, AddStep.pick 3 refl Adds.compare))
        (_, AddStep.pick 3 refl Adds.unlock))
      (_, AddStep.pick 3 refl Adds.join)

AddRun-ends_example :
    let s = fourth_joined.0 in
    (24 ≤ 20 * 1 + 4)
    × ((All (λ a. a ≡ joined) s.adders × (s.counter ≡ 4 * 1)) ⊎ ((t : Sum) × AddStep 1 s t))
AddRun-ends_example =
    AddRun-ends 1 24 (fourth_joined.0) (omega arith) (omega arith) (fourth_joined.1)
