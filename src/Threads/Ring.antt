-- ===== src/Threads/Ring.antt =====
-- The ring of the buffer: which slots are filled, and what they hold.
use seccap_sgx_bank.Base.{
  ℕ, zero, suc, ◌+◌, ◌%◌, ◌<◌, ◌≤◌, ◌≡◌, ◌≢◌, refl, sym, ap, ◌∙◌, some, length, length-set,
  length-replicate, get_elem?, set, get_elem?-set_self, get_elem?-set_ne, replicate, arith,
}
use native.Mathlib.Decide.{dec_lt}
use seccap_sgx_bank.Threads.{CondBuffer, buffer_size, empty_buffer, produce, consume}

-- The slot `k` places behind `nextout`.
abbrev pub slot : CondBuffer → ℕ → ℕ
slot b k = (b.nextout + k) % buffer_size

-- The filled slots start at `nextout` and end before `nextin`. A filled slot holds its own number,
-- and an empty one 0.
pub record IsRing (b : CondBuffer) : Type 0 where
  pub size : length b.buf ≡ buffer_size
  pub at_out : b.nextout < buffer_size
  pub at_in : b.nextin ≡ slot b b.occupied
  pub filled : (k : ℕ) → k < b.occupied → get_elem? b.buf (slot b k) ≡ some (slot b k)
  pub cleared : (k : ℕ) → b.occupied ≤ k → k < buffer_size → get_elem? b.buf (slot b k) ≡ some 0

get_elem?-replicate : (n i a : ℕ) → i < n → get_elem? (replicate n a) i ≡ some a
get_elem?-replicate zero i a h = absurd (omega arith)
get_elem?-replicate (suc n) zero a h = refl
get_elem?-replicate (suc n) (suc i) a h = get_elem?-replicate n i a (omega arith)

pub empty_buffer-IsRing : IsRing empty_buffer
empty_buffer-IsRing = record {
  size = length-replicate 50 (let zero_int : ℕ = 0 in zero_int);
  at_out = omega arith;
  at_in = refl;
  filled = λ k h. absurd (omega arith);
  cleared = λ k h below. get_elem?-replicate 50 ((0 + k) % 50) 0 (omega arith);
}

-- Two places of the ring are two slots.
slot-ne : (b : CondBuffer) (k m : ℕ) → k < m → m < buffer_size → slot b m ≢ slot b k
slot-ne b k m h below = λ e. omega arith

-- A write to one place leaves the others.
set-slot :
    (b : CondBuffer) (i k x v : ℕ)
    → i ≢ slot b k
    → get_elem? b.buf (slot b k) ≡ some v
    → get_elem? (set b.buf i x) (slot b k) ≡ some v
set-slot b i k x v ne old = get_elem?-set_ne b.buf i (slot b k) x ne ∙ old

pub produce-IsRing : (b : CondBuffer) → b.occupied < buffer_size → IsRing b → IsRing (produce b)
unfolding produce
produce-IsRing b h v = record {
  size = length-set b.buf b.nextin b.nextin ∙ v.size;
  at_out = v.at_out;
  at_in = omega (arith, v.at_in);
  filled = λ k below. elim (dec_lt k b.occupied) [
    | yes old ↦
        set-slot b b.nextin k b.nextin (slot b k)
          (λ e. slot-ne b k b.occupied old h (sym v.at_in ∙ e)) (v.filled k old)
    | no new ↦
        let last : k ≡ b.occupied = omega arith in
        let here : slot b k ≡ b.nextin = ap (slot b) last ∙ sym v.at_in in
        rw here (get_elem?-set_self b.buf b.nextin b.nextin (omega (arith, v.at_in, v.size)))
  ];
  cleared = λ k above below.
      set-slot b b.nextin k b.nextin 0
        (λ e. slot-ne b b.occupied k (omega arith) below (sym e ∙ v.at_in))
        (v.cleared k (omega arith) below);
}

-- After `nextout` has moved, every place is one nearer.
slot-consume : (b : CondBuffer) (k : ℕ) → slot (consume b) k ≡ slot b (k + 1)
unfolding consume
slot-consume b k = omega arith

pub consume-IsRing :
    (b : CondBuffer) → 0 < b.occupied → b.occupied ≤ buffer_size → IsRing b → IsRing (consume b)
unfolding consume
consume-IsRing b h most v =
    let first : b.nextout ≡ slot b 0 = omega (arith, v.at_out) in
    record {
      size = length-set b.buf b.nextout 0 ∙ v.size;
      at_out = omega arith;
      at_in = omega (arith, v.at_in);
      filled = λ k below. rw (slot-consume b k) (
          set-slot b b.nextout (k + 1) 0 (slot b (k + 1))
            (λ e. slot-ne b 0 (k + 1) (omega arith) (omega arith) (sym e ∙ first))
            (v.filled (k + 1) (omega arith)));
      cleared = λ k above below. rw (slot-consume b k) (elim (dec_lt (k + 1) buffer_size) [
        | yes inside ↦
            set-slot b b.nextout (k + 1) 0 0
              (λ e. slot-ne b 0 (k + 1) (omega arith) inside (sym e ∙ first))
              (v.cleared (k + 1) (omega arith) inside)
        | no outside ↦
            let here : slot b (k + 1) ≡ b.nextout = omega (arith, v.at_out) in
            rw here (get_elem?-set_self b.buf b.nextout 0 (omega (arith, v.at_out, v.size)))
      ]);
    }
