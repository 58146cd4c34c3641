-- ===== src/Tests/Samples.antt =====
-- Witnesses of the theorems on the samples that show how buffers pass.
use seccap_sgx_bank.Base.{
  ℕ, zero, suc, ◌-◌, ◌<◌, ◌≡◌, refl, some, List, [], ◌∷◌, length, get_elem?, arith,
}
use seccap_sgx_bank.Edger8r.Arrays.{turn_round, turn_round_lem}

abbrev four : List ℕ
four = 0 ∷ 1 ∷ 2 ∷ 3 ∷ []

four-get_elem? : (i : ℕ) → i < 4 → get_elem? four i ≡ some i
four-get_elem? zero h = refl
four-get_elem? (suc zero) h = refl
four-get_elem? (suc (suc zero)) h = refl
four-get_elem? (suc (suc (suc zero))) h = refl
four-get_elem? (suc (suc (suc (suc i)))) h = absurd (omega arith)

turn_round_lem_example :
    (out : List ℕ) × (turn_round (λ i. i) 4 4 0 four ≡ some out)
    × (length out ≡ 4)
    × ((i : ℕ) → i < 4 → get_elem? out i ≡ some (4 - 1 - i))
turn_round_lem_example = turn_round_lem (λ i. i) 4 four refl four-get_elem?
