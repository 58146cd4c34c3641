-- ===== src/CLib/Decimal.antt =====
-- `atoi` reads back what `%ld` printed, as far as an `int` reaches.
use native.Mathlib.Nat.{pow-suc, one-le-pow}
use seccap_sgx_bank.Base.{
  ℕ, zero, suc, ◌+◌, ◌-◌, ◌*◌, ◌/◌, ◌%◌, ◌^◌, ◌<◌, ◌≤◌, ◌≡◌, refl, ◌∙◌, ap, inl, inr, true, false,
  Bool-cases, [], ◌∷◌, ◌++◌, length, append_assoc, ltb, ltb→lt, lt→ltb, All, All-append,
  length-append, arith, Bytes,
}
use seccap_sgx_bank.CLib.{digits, read_digits, print_ld, is_digit, atoi}

read_digits-digit :
    (acc d : ℕ) (rest : Bytes)
    → d < 10
    → read_digits acc ((d + 48) ∷ rest) ≡ read_digits (acc * 10 + d) rest
unfolding read_digits
read_digits-digit acc d rest h = ground arith

pub read_digits-digits :
    (fuel n : ℕ) (rest : Bytes)
    → n < 10 ^ fuel
    → read_digits 0 (digits fuel n ++ rest) ≡ read_digits n rest
unfolding digits
read_digits-digits zero n rest h = let e : n ≡ 0 = omega arith in rw e
read_digits-digits (suc fuel) n rest h = elim (Bool-cases (ltb n 10)) [
  | inl small ↦
      rw small
        (read_digits-digit 0 n rest (ground arith) ∙ ap (λ t. read_digits t rest) (omega arith))
  | inr large ↦ rw large (
      rw append_assoc (
        read_digits-digits fuel (n / 10) (((n % 10) + 48) ∷ rest) (omega (arith, pow-suc 10 fuel))
        ∙ read_digits-digit (n / 10) (n % 10) rest (omega arith)
        ∙ ap (λ t. read_digits t rest) (omega arith)))
]

abbrev pub IsDigit : ℕ → Type 0
IsDigit c = (48 ≤ c) × (c ≤ 57)

-- The printed form consists of digits.
pub digits-IsDigit : (fuel n : ℕ) → All IsDigit (digits fuel n)
unfolding digits
digits-IsDigit zero n = tt
digits-IsDigit (suc fuel) n = elim (Bool-cases (ltb n 10)) [
  | inl small ↦ rw small ((omega arith, ground arith), tt)
  | inr large ↦ rw large (
      All-append IsDigit (digits fuel (n / 10)) (((n % 10) + 48) ∷ [])
        (digits-IsDigit fuel (n / 10)) ((omega arith, omega arith), tt))
]

-- At most `k` digits below 10 ^ k.
pub length-digits-le : (fuel k n : ℕ) → 0 < k → n < 10 ^ k → length (digits fuel n) ≤ k
unfolding digits
length-digits-le zero k n p h = omega arith
length-digits-le (suc fuel) zero n p h = absurd (omega arith)
length-digits-le (suc fuel) (suc zero) n p h =
    let e : ltb n 10 ≡ true = ground arith in rw e (omega arith)
length-digits-le (suc fuel) (suc (suc k)) n p h =
    let rest =
      length-digits-le fuel (suc k) (n / 10) (omega arith) (omega (arith, pow-suc 10 (suc k))) in
    elim (Bool-cases (ltb n 10)) [
      | inl small ↦ rw small (omega arith)
      | inr large ↦
          rw large (rw (length-append (digits fuel (n / 10)) (((n % 10) + 48) ∷ [])) (omega arith))
    ]

-- The printed form of a number is not empty.
pub length-digits-pos : (fuel n : ℕ) → 0 < length (digits (suc fuel) n)
unfolding digits
length-digits-pos fuel n = elim (Bool-cases (ltb n 10)) [
  | inl small ↦ rw small (omega arith)
  | inr large ↦
      rw large (rw (length-append (digits fuel (n / 10)) (((n % 10) + 48) ∷ [])) (omega arith))
]

-- More than `k` digits from 10 ^ k on.
pub lt-length-digits : (fuel k n : ℕ) → n < 10 ^ fuel → 10 ^ k ≤ n → k < length (digits fuel n)
unfolding digits
lt-length-digits zero k n h p = absurd (omega (arith, one-le-pow k 10 (omega arith)))
lt-length-digits (suc fuel) zero n h p = length-digits-pos fuel n
lt-length-digits (suc fuel) (suc k) n h p =
    let rest =
      lt-length-digits fuel k (n / 10) (omega (arith, pow-suc 10 fuel))
        (omega (arith, pow-suc 10 k)) in
    elim (Bool-cases (ltb n 10)) [
      | inl small ↦
          absurd (omega (arith, ltb→lt n 10 small, pow-suc 10 k, one-le-pow k 10 (omega arith)))
      | inr large ↦
          rw large (rw (length-append (digits fuel (n / 10)) (((n % 10) + 48) ∷ [])) (omega arith))
    ]

-- What may follow a number that is to be read back whole.
abbrev pub EndsNumber : Bytes → Type 0
EndsNumber [] = Unit
EndsNumber (c ∷ cs) = is_digit c ≡ false

read_digits-EndsNumber : (n : ℕ) (rest : Bytes) → EndsNumber rest → read_digits n rest ≡ n
unfolding read_digits
read_digits-EndsNumber n [] h = refl
read_digits-EndsNumber n (c ∷ cs) h = rw h

atoi-IsDigit :
    (open_result : Bytes → ℕ) (xs rest : Bytes)
    → All IsDigit xs
    → 0 < length xs
    → read_digits 0 (xs ++ rest) < 2 ^ 31
    → atoi open_result (xs ++ rest) ≡ read_digits 0 (xs ++ rest)
unfolding atoi
atoi-IsDigit open_result [] rest d p h = absurd (omega arith)
atoi-IsDigit open_result (x ∷ xs) rest d p h = ground arith

-- `atoi` gives back a printed number that an `int` holds, whatever other text follows.
pub atoi-digits :
    (open_result : Bytes → ℕ) (n : ℕ) (rest : Bytes)
    → n < 2 ^ 31
    → EndsNumber rest
    → atoi open_result (print_ld n ++ rest) ≡ n
unfolding print_ld
atoi-digits open_result n rest h e =
    let whole = read_digits-digits 20 n rest (omega arith) ∙ read_digits-EndsNumber n rest e in
    rw (lt→ltb n (2 ^ 63) (omega arith)) (
      atoi-IsDigit open_result (digits 20 n) rest (digits-IsDigit 20 n) (length-digits-pos 19 n)
        (rw whole h)
      ∙ whole)

-- `-n` is read as the 64-bit pattern of its two's complement.
pub atoi-minus :
    (open_result : Bytes → ℕ) (n : ℕ) (rest : Bytes)
    → 0 < n
    → n ≤ 2 ^ 31
    → EndsNumber rest
    → atoi open_result (45 ∷ (digits 20 n ++ rest)) ≡ 2 ^ 64 - n
unfolding atoi
atoi-minus open_result n rest p h e =
    let whole = read_digits-digits 20 n rest (omega arith) ∙ read_digits-EndsNumber n rest e in
    rw whole (ground arith)
