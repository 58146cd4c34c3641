-- ===== src/Threads/Adders/Total.antt =====
-- The adders bring the counter to four times LOOPS_PER_THREAD, whatever their order.
use seccap_sgx_bank.Base.{
  ℕ, ◌+◌, ◌*◌, ◌%◌, ◌<◌, ◌≤◌, ◌≡◌, refl, Bool, List, [], ◌∷◌, ◌==◌, if◌then◌else◌, get_elem?-lt,
  get_elem?-set_self, set, All, ap, arith,
}
use seccap_sgx_bank.CLib.{u64_mod}
use seccap_sgx_bank.Threads.Count.{count, count-set, count-le, count-get}
use seccap_sgx_bank.Threads.Inv.{locks, locks-le}
use seccap_sgx_bank.Threads.Adders.{
  Adder, looping, adding, reading, written, tested, joined, Sum, Adds, lock, read, write, compare,
  unlock, join, pick, AddRun, begin, later,
}

abbrev pub holds : Adder → ℕ
holds (adding n ret) = 1
holds (reading n ret tmp) = 1
holds (written n ret) = 1
holds (tested n ret) = 1
holds _ = 0

-- How often an adder will still add one.
abbrev pub to_add : Adder → ℕ
to_add (looping n ret) = n
to_add (adding n ret) = n + 1
to_add (reading n ret tmp) = n + 1
to_add (written n ret) = n
to_add (tested n ret) = n
to_add joined = 0

abbrev reads : Adder → ℕ
reads (reading n ret tmp) = 1
reads _ = 0

-- Whether an adder has read another value than the counter has.
abbrev pub stale : ℕ → Adder → ℕ
stale g (reading n ret tmp) = if tmp == g then 0 else 1
stale g _ = 0

pub wrong_ret : ℕ → ℕ → ℕ
wrong_ret loops ret = if ret == 0 then 0 else if ret == 4 * loops then 0 else 1

-- Whether `ret` is neither 0 nor the final value.
abbrev pub wrong : ℕ → Adder → ℕ
wrong loops (looping n ret) = wrong_ret loops ret
wrong loops (adding n ret) = wrong_ret loops ret
wrong loops (reading n ret tmp) = wrong_ret loops ret
wrong loops (written n ret) = wrong_ret loops ret
wrong loops (tested n ret) = wrong_ret loops ret
wrong loops joined = 0

pub is_final : ℕ → ℕ → ℕ
is_final loops n = if n == 4 * loops then 1 else 0

-- Whether an adder has the final value in `ret`, or has just written the counter.
abbrev pub carries : ℕ → Adder → ℕ
carries loops (looping n ret) = is_final loops ret
carries loops (adding n ret) = is_final loops ret
carries loops (reading n ret tmp) = is_final loops ret
carries loops (written n ret) = 1
carries loops (tested n ret) = is_final loops ret
carries loops joined = 0

pub record AddInv (loops : ℕ) (g : ℕ) (l : Bool) (c : ℕ) (adders : List Adder) : Type 0 where
  pub mutex : count holds adders ≡ locks l
  pub sum : g + count to_add adders ≡ 4 * loops
  pub fresh : count (stale g) adders ≡ 0
  pub right : count (wrong loops) adders ≡ 0
  pub final : 4 * loops ≤ g → 0 < is_final loops c + count (carries loops) adders

stale-reads : (g : ℕ) (a : Adder) → stale g a ≤ reads a
stale-reads g a = ground arith

reads-holds : (a : Adder) → reads a ≤ holds a
reads-holds a = ground arith

count-joined :
    (f : Adder → ℕ)
    → f joined ≡ 0
    → (adders : List Adder) → All (λ a. a ≡ joined) adders
    → count f adders ≡ 0
count-joined f e [] h = refl
count-joined f e (a ∷ adders) h = omega (arith, ap f h.0, e, count-joined f e adders h.1)

-- How the sums change where one adder goes on.
abbrev Moved : List Adder → List Adder → Adder → Adder → Type 0
Moved adders adders' a a' = (f : Adder → ℕ) → count f adders' + f a ≡ count f adders + f a'

-- The adder that goes on is among the others afterwards.
abbrev There : List Adder → Adder → Type 0
There adders' a' = (f : Adder → ℕ) → f a' ≤ count f adders'

module _ (loops : ℕ) (positive_loops : 0 < loops) (small : 4 * loops < u64_mod)
    (adders adders' : List Adder) where
  -- A write while nobody else reads: the value is one more than the counter.
  write-AddInv :
      (g c n ret tmp : ℕ) (l : Bool)
      → Moved adders adders' (reading n ret tmp) (written n ret)
      → There adders' (written n ret)
      → AddInv loops g l c adders
      → AddInv loops ((tmp + 1) % u64_mod) l c adders'
  unfolding wrong_ret is_final
  write-AddInv g c n ret tmp l f there v =
      let same : tmp ≡ g = ground (arith, f (stale g), v.fresh) in
      let alone = count-le reads holds reads-holds adders in
      let nobody : count reads adders' ≡ 0 = omega (arith, f reads, v.mutex, locks-le l) in
      record {
        mutex = omega (arith, f holds, v.mutex);
        sum = omega (arith, f to_add, v.sum);
        fresh = omega (
          arith,
          count-le (stale ((tmp + 1) % u64_mod)) reads (stale-reads ((tmp + 1) % u64_mod)) adders',
        );
        right = omega (arith, f (wrong loops), v.right);
        final = λ h. omega (arith, there (carries loops));
      }

  Adds-AddInv :
      {g g' c c' : ℕ} {l l' : Bool} {a a' : Adder}
      → Adds loops g l c a g' l' c' a'
      → Moved adders adders' a a'
      → There adders' a'
      → AddInv loops g l c adders
      → AddInv loops g' l' c' adders'
  unfolding wrong_ret is_final
  Adds-AddInv {g} lock f there v = record {
    mutex = omega (arith, f holds, v.mutex);
    sum = omega (arith, f to_add, v.sum);
    fresh = omega (arith, f (stale g), v.fresh);
    right = omega (arith, f (wrong loops), v.right);
    final = λ h. omega (arith, f (carries loops), v.final h);
  }
  Adds-AddInv {g} read f there v = record {
    mutex = omega (arith, f holds, v.mutex);
    sum = omega (arith, f to_add, v.sum);
    fresh = ground (arith, f (stale g), v.fresh);
    right = omega (arith, f (wrong loops), v.right);
    final = λ h. omega (arith, f (carries loops), v.final h);
  }
  Adds-AddInv (write {g} {c} {n} {ret} {tmp} {l}) f there v = write-AddInv g c n ret tmp l f there v
  Adds-AddInv {g} compare f there v = record {
    mutex = omega (arith, f holds, v.mutex);
    sum = omega (arith, f to_add, v.sum);
    fresh = omega (arith, f (stale g), v.fresh);
    right = ground (arith, f (wrong loops), v.right);
    final = λ h. ground (arith, there (carries loops), v.sum);
  }
  Adds-AddInv {g} {l = l} unlock f there v = record {
    mutex = omega (arith, f holds, v.mutex, locks-le l);
    sum = omega (arith, f to_add, v.sum);
    fresh = omega (arith, f (stale g), v.fresh);
    right = omega (arith, f (wrong loops), v.right);
    final = λ h. omega (arith, f (carries loops), v.final h);
  }
  Adds-AddInv {g} join f there v = record {
    mutex = omega (arith, f holds, v.mutex);
    sum = omega (arith, f to_add, v.sum);
    fresh = omega (arith, f (stale g), v.fresh);
    right = omega (arith, f (wrong loops), v.right);
    final =
        λ h. let sure = v.final h in ground (arith, f (wrong loops), f (carries loops), v.right);
  }

pub AddRun-AddInv :
    (loops k : ℕ) (s : Sum)
    → 0 < loops
    → 4 * loops < u64_mod
    → AddRun loops k s
    → AddInv loops s.global_counter s.locked s.counter s.adders
unfolding wrong_ret is_final
AddRun-AddInv loops k s h small begin = record {
  mutex = refl;
  sum = omega arith;
  fresh = refl;
  right = refl;
  final = λ few. absurd (omega arith);
}
AddRun-AddInv loops k s h small (later {k = j} {s = t} r (pick i {a} {a'} e adds)) =
    Adds-AddInv loops h small t.adders (set t.adders i a') adds (λ f. count-set f t.adders i a' e)
      (λ f.
        count-get f (set t.adders i a') i
          (get_elem?-set_self t.adders i a' (get_elem?-lt t.adders i e)))
      (AddRun-AddInv loops j t h small r)

-- `assert(counter == 4 * LOOPS_PER_THREAD)`: in whatever order the adders run, once all have
-- returned, the counter of the application is four times LOOPS_PER_THREAD, if that is positive and
-- fits 64 bits.
pub AddRun-counter :
    (loops k : ℕ) (s : Sum)
    → 0 < loops
    → 4 * loops < u64_mod
    → AddRun loops k s
    → All (λ a. a ≡ joined) s.adders
    → s.counter ≡ 4 * loops
unfolding is_final
AddRun-counter loops k s h small r done =
    let v = AddRun-AddInv loops k s h small r in
    let nothing = count-joined to_add refl s.adders done in
    let nobody = count-joined (carries loops) refl s.adders done in
    let sure = v.final (omega (arith, v.sum)) in ground arith
