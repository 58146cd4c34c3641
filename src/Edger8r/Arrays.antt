-- ===== src/Edger8r/Arrays.antt =====
-- App/Edger8rSyntax/Arrays.cpp and Enclave/Edger8rSyntax/Arrays.cpp: arrays of `int` as parameters.
use seccap_sgx_bank.Base.{
  ℕ, zero, suc, ◌+◌, ◌-◌, ◌<◌, ◌≤◌, ◌≡◌, refl, ◌∙◌, subst, Bool-cases, inl, inr, Bool, true, false,
  Option, none, some, List, [], ◌∷◌, ◌==◌, ◌&&◌, if◌then◌else◌, length, length-set, get_elem?, set,
  get_elem?-set_self, get_elem?-set_ne, arith,
}
use seccap_sgx_bank.Edger8r.{Bridge, BridgeLaws, ◌>>=◌, ◌>>◌, assert}

-- The loop of each ecall, from `i` on for `k` rounds: `arr[i]` is asserted to be `expected i`, and
-- is set to `n - 1 - i`.
unfoldable pub turn_round : (ℕ → ℕ) → ℕ → ℕ → ℕ → List ℕ → Option (List ℕ)
turn_round expected n zero i arr = some arr
turn_round expected n (suc k) i arr =
    let rest = turn_round expected n k (suc i) (set arr i (n - 1 - i)) in
    elim (get_elem? arr i) [ none ↦ none | some x ↦ if x == expected i then rest else none ]

-- `outside` is what `sgx_is_outside_enclave` answers of the pointer.
unfoldable pub ecall_array_user_check : Bool → List ℕ → Option (List ℕ)
unfolding turn_round
ecall_array_user_check outside arr = if outside then turn_round (λ i. i) 4 4 0 arr else none

unfoldable pub ecall_array_in : List ℕ → Option (List ℕ)
unfolding turn_round
ecall_array_in arr = turn_round (λ i. i) 4 4 0 arr

-- The array is not copied from the application.
unfoldable pub ecall_array_out : List ℕ → Option (List ℕ)
unfolding turn_round
ecall_array_out arr = turn_round (λ i. 0) 4 4 0 arr

unfoldable pub ecall_array_in_out : List ℕ → Option (List ℕ)
unfolding turn_round
ecall_array_in_out arr = turn_round (λ i. i) 4 4 0 arr

unfoldable pub ecall_array_isary : Bool → List ℕ → Option (List ℕ)
unfolding turn_round
ecall_array_isary outside arr = if outside then turn_round (λ i. i) 10 10 0 arr else none

-- The loop behind each call: `arr[i]` is asserted to be `expected i`, from `i` on for `k` rounds.
unfoldable pub all_equal : (ℕ → ℕ) → ℕ → ℕ → List ℕ → Bool
all_equal expected zero i arr = true
all_equal expected (suc k) i arr =
    let rest = all_equal expected k (suc i) arr in
    elim (get_elem? arr i) [ none ↦ false | some x ↦ x == expected i && rest ]

unfoldable pub edger8r_array_attributes : Bridge → Bool → Option (Unit {0})
unfolding all_equal ecall_array_user_check ecall_array_in ecall_array_out ecall_array_in_out
    ecall_array_isary
edger8r_array_attributes bridge outside = do
  arr1 ← bridge.user_check (ecall_array_user_check outside) (0 ∷ 1 ∷ 2 ∷ 3 ∷ [])
  assert (all_equal (λ i. 3 - i) 4 0 arr1)
  arr2 ← bridge.copied_in 4 ecall_array_in (0 ∷ 1 ∷ 2 ∷ 3 ∷ [])
  assert (all_equal (λ i. i) 4 0 arr2)
  arr3 ← bridge.copied_out 4 ecall_array_out (0 ∷ 1 ∷ 2 ∷ 3 ∷ [])
  assert (all_equal (λ i. 3 - i) 4 0 arr3)
  arr4 ← bridge.copied_in_out 4 ecall_array_in_out (0 ∷ 1 ∷ 2 ∷ 3 ∷ [])
  assert (all_equal (λ i. 3 - i) 4 0 arr4)
  arr5 ← bridge.user_check (ecall_array_isary outside) (0 ∷ 1 ∷ 2 ∷ 3 ∷ 4 ∷ 5 ∷ 6 ∷ 7 ∷ 8 ∷ 9 ∷ [])
  assert (all_equal (λ i. 9 - i) 10 0 arr5)

-- The array in the middle of the loop.
record Halfway (expected : ℕ → ℕ) (n i : ℕ) (arr : List ℕ) : Type 0 where
  size : length arr ≡ n
  turned : (j : ℕ) → j < i → get_elem? arr j ≡ some (n - 1 - j)
  kept : (j : ℕ) → i ≤ j → j < n → get_elem? arr j ≡ some (expected j)

Halfway-set :
    (expected : ℕ → ℕ) (n i : ℕ) (arr : List ℕ)
    → i < n
    → Halfway expected n i arr
    → Halfway expected n (suc i) (set arr i (n - 1 - i))
Halfway-set expected n i arr h w = record {
  size = length-set arr i (n - 1 - i) ∙ w.size;
  turned = λ j le. elim (Bool-cases (j == i)) [
    | inl here ↦
        let e : j ≡ i = ground arith in
        rw e (get_elem?-set_self arr i (n - 1 - i) (omega (arith, w.size)))
    | inr before ↦
        get_elem?-set_ne arr i j (n - 1 - i) (λ e. absurd (ground arith))
        ∙ w.turned j (ground arith)
  ];
  kept = λ j le lt.
      get_elem?-set_ne arr i j (n - 1 - i) (λ e. absurd (omega arith)) ∙ w.kept j (omega arith) lt;
}

turn_round-Halfway :
    (expected : ℕ → ℕ) (n k i : ℕ) (arr : List ℕ)
    → k + i ≡ n
    → Halfway expected n i arr
    → (out : List ℕ) × (turn_round expected n k i arr ≡ some out) × Halfway expected n n out
unfolding turn_round
turn_round-Halfway expected n zero i arr e w =
    (arr, refl, subst (λ m. Halfway expected n m arr) (omega arith) w)
turn_round-Halfway expected n (suc k) i arr e w =
    let here = w.kept i (omega arith) (omega arith) in
    let (out, run, rest) =
      turn_round-Halfway expected n k (suc i) (set arr i (n - 1 - i)) (omega arith)
        (Halfway-set expected n i arr (omega arith) w) in
    (out, ground (arith, here, run), rest)

-- The loop of the array ecalls, on an array of any length `n` whose entries are the expected ones,
-- fails no assert, and leaves the numbers from `n - 1` down to 0.
pub turn_round_lem :
    (expected : ℕ → ℕ) (n : ℕ) (arr : List ℕ)
    → length arr ≡ n
    → ((i : ℕ) → i < n → get_elem? arr i ≡ some (expected i))
    → (out : List ℕ) × (turn_round expected n n 0 arr ≡ some out)
      × (length out ≡ n)
      × ((i : ℕ) → i < n → get_elem? out i ≡ some (n - 1 - i))
turn_round_lem expected n arr size all =
    let (out, run, w) =
      turn_round-Halfway expected n n 0 arr (omega arith)
        (record { size = size; turned = λ j h. absurd (omega arith); kept = λ j h lt. all j lt }) in
    (out, run, w.size, w.turned)

-- Where the code that passes the arrays does what the attributes say, and the application's arrays
-- are outside of the enclave, no assert fails, in the enclave or in the application.
pub edger8r_array_attributes_passes :
    (bridge : Bridge) → BridgeLaws bridge → edger8r_array_attributes bridge true ≡ some tt
unfolding edger8r_array_attributes ecall_array_user_check ecall_array_in ecall_array_out
    ecall_array_in_out ecall_array_isary turn_round all_equal
edger8r_array_attributes_passes bridge laws =
    simp (laws.user_check-run, laws.copied_in-run, laws.copied_out-run, laws.copied_in_out-run)
