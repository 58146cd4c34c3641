-- ===== src/Threads/Count.antt =====
-- Sums of a weight over a list.
use seccap_sgx_bank.Base.{
  ℕ, zero, suc, ◌+◌, ◌≤◌, ◌<◌, ◌≡◌, ◌⊎◌, inl, inr, refl, some, List, [], ◌∷◌, get_elem?, set, All,
  arith,
}

pub positive : (n : ℕ) → (n ≡ 0) ⊎ (0 < n)
positive zero = inl refl
positive (suc n) = inr (omega arith)

module _ {A : Type 0} where
  abbrev pub count : (A → ℕ) → List A → ℕ
  count f [] = 0
  count f (x ∷ xs) = f x + count f xs

  pub count-set :
      (f : A → ℕ) (xs : List A) (i : ℕ) {a : A} (v : A)
      → get_elem? xs i ≡ some a
      → count f (set xs i v) + f a ≡ count f xs + f v
  count-set f [] i v e = cc
  count-set f (x ∷ xs) zero {a} v e = let same : f x ≡ f a = cc in omega arith
  count-set f (x ∷ xs) (suc i) v e = omega (arith, count-set f xs i v e)

  pub count-le : (f g : A → ℕ) → ((x : A) → f x ≤ g x) → (xs : List A) → count f xs ≤ count g xs
  count-le f g h [] = omega arith
  count-le f g h (x ∷ xs) = omega (arith, h x, count-le f g h xs)

  pub count-add : (f g : A → ℕ) (xs : List A) → count (λ x. f x + g x) xs ≡ count f xs + count g xs
  count-add f g [] = refl
  count-add f g (x ∷ xs) = omega (arith, count-add f g xs)

  -- Where the sum is positive, so is a weight.
  pub count-find :
      (f : A → ℕ) (xs : List A)
      → 0 < count f xs
      → (i : ℕ) × (a : A) × (get_elem? xs i ≡ some a) × (0 < f a)
  count-find f [] h = absurd (omega arith)
  count-find f (x ∷ xs) h = elim (positive (f x)) [
    | inl none_here ↦ let (i, a, e, p) = count-find f xs (omega arith) in (suc i, a, e, p)
    | inr here ↦ (0, x, refl, here)
  ]

  pub count-get :
      (f : A → ℕ) (xs : List A) (i : ℕ) {a : A} → get_elem? xs i ≡ some a → f a ≤ count f xs
  count-get f [] i e = cc
  count-get f (x ∷ xs) zero {a} e = let same : f x ≡ f a = cc in omega arith
  count-get f (x ∷ xs) (suc i) e = omega (arith, count-get f xs i e)

  pub count-zero : (f : A → ℕ) (xs : List A) → count f xs ≡ 0 → All (λ x. f x ≡ 0) xs
  count-zero f [] e = tt
  count-zero f (x ∷ xs) e = (omega arith, count-zero f xs (omega arith))
