-- ===== src/World/Preserves.antt =====
-- Invariants of runs, one rule for each way to build a run.
use seccap_sgx_bank.Base.{Bool, true, false, Option, none, some, if◌then◌else◌}
use seccap_sgx_bank.World.{World, M, Stop, Result, ok, stop, pure, halt, gets, or_stop, ◌>>=◌, ◌>>◌}

-- The run keeps the predicate, whether it returns or stops.
pub record Preserves {A : Type 0} (P : World → Type 0) (m : M A) : Type 0 where
  pub at : (w : World) → P w → P (m w).1

module _ {A : Type 0} {P : World → Type 0} where
  pub Preserves-pure : (a : A) → Preserves P (pure a)
  Preserves-pure a = record { at = λ w h. h }

  pub Preserves-halt : (s : Stop) → Preserves P (halt {A = A} s)
  Preserves-halt s = record { at = λ w h. h }

  pub Preserves-gets : (f : World → A) → Preserves P (gets f)
  Preserves-gets f = record { at = λ w h. h }

  pub Preserves-or_stop : (s : Stop) (o : Option A) → Preserves P (or_stop s o)
  Preserves-or_stop s none = record { at = λ w h. h }
  Preserves-or_stop s (some a) = record { at = λ w h. h }

  pub Preserves-Bool :
      (b : Bool) (m n : M A)
      → Preserves P m
      → Preserves P n
      → Preserves P (elim b [ true ↦ m | false ↦ n ])
  Preserves-Bool true m n km kn = km
  Preserves-Bool false m n km kn = kn

  pub Preserves-if :
      (b : Bool) (m n : M A) → Preserves P m → Preserves P n → Preserves P (if b then m else n)
  Preserves-if true m n km kn = km
  Preserves-if false m n km kn = kn

module _ {A B : Type 0} where
  -- What is bound to a run that has returned or stopped.
  abbrev pub go_on_with : (A → M B) → Result A × World → Result B × World
  go_on_with f p = let (r, w) = p in elim r [ ok a ↦ f a w | stop s ↦ (stop s, w) ]

module _ {A B : Type 0} {P : World → Type 0} where
  pub Preserves-Option :
      (o : Option B) (m : M A) (n : B → M A)
      → Preserves P m
      → ((x : B) → Preserves P (n x))
      → Preserves P (elim o [ none ↦ m | some x ↦ n x ])
  Preserves-Option none m n km kn = km
  Preserves-Option (some x) m n km kn = kn x

  go_on_with-P :
      (f : A → M B) (r : Result A × World)
      → ((a : A) → Preserves P (f a))
      → P r.1
      → P (go_on_with f r).1
  go_on_with-P f (ok a, w) kf h = (kf a).at w h
  go_on_with-P f (stop s, w) kf h = h

  pub Preserves-bind :
      (m : M A) (f : A → M B)
      → Preserves P m
      → ((a : A) → Preserves P (f a))
      → Preserves P (m >>= f)
  Preserves-bind m f km kf = record { at = λ w h. go_on_with-P f (m w) kf (km.at w h) }

  pub Preserves-then : (m : M A) (n : M B) → Preserves P m → Preserves P n → Preserves P (m >> n)
  Preserves-then m n km kn = Preserves-bind m (λ _. n) km (λ _. kn)

pub ruleset preserving = (
  Preserves-pure, Preserves-halt, Preserves-gets, Preserves-or_stop, Preserves-Bool, Preserves-if,
  Preserves-Option, Preserves-bind, Preserves-then,
)

abbrev pub IsStopped : {A : Type 0} → Result A × World → Type 0
IsStopped (ok a, w) = ⊥
IsStopped (stop s, w) = Unit

-- The run never returns where the predicate holds.
pub record Stops {A : Type 0} (P : World → Type 0) (m : M A) : Type 0 where
  pub at : (w : World) → P w → IsStopped (m w)

module _ {A B : Type 0} where
  pub go_on_with-IsStopped :
      (f : A → M B) (r : Result A × World) → IsStopped r → IsStopped (go_on_with f r)
  go_on_with-IsStopped f (stop s, w) h = tt
  go_on_with-IsStopped f (ok a, w) h = absurd h

module _ {A B : Type 0} {P : World → Type 0} where
  go_on_with-Stops :
      (f : A → M B) (r : Result A × World)
      → ((a : A) → Stops P (f a))
      → P r.1
      → IsStopped (go_on_with f r)
  go_on_with-Stops f (ok a, w) sf h = (sf a).at w h
  go_on_with-Stops f (stop s, w) sf h = tt

  -- A part that never returns.
  pub Stops-bind : (m : M A) (f : A → M B) → Stops P m → Stops P (m >>= f)
  Stops-bind m f s = record { at = λ w h. go_on_with-IsStopped f (m w) (s.at w h) }

  -- A part that keeps the predicate, and what never returns behind it.
  pub Stops-after :
      (m : M A) (f : A → M B) → Preserves P m → ((a : A) → Stops P (f a)) → Stops P (m >>= f)
  Stops-after m f k s = record { at = λ w h. go_on_with-Stops f (m w) s (k.at w h) }

  pub Stops-then : (m : M A) (n : M B) → Preserves P m → Stops P n → Stops P (m >> n)
  Stops-then m n k s = Stops-after m (λ _. n) k (λ _. s)

pub ruleset stopping = (Stops-bind, Stops-after, Stops-then)
