-- ===== src/Host/Refused.antt =====
-- While the host does not let the file be written, nothing that the enclave or the
-- application does makes it writable, and a file that cannot be opened is not changed.
use seccap_sgx_bank.Base.{
  ℕ, ◌≡◌, refl, sym, subst, Bool, true, false, Option, none, arith, Bytes, get_elem?,
}
use seccap_sgx_bank.World.{
  World, Io, M, Stop, Line, DealManager, assert, print, when, load, alloc, store, this, set_this,
}
use seccap_sgx_bank.World.Preserves.{
  Preserves, preserving, Preserves-bind, Preserves-then, Preserves-if, Preserves-Bool,
  Preserves-Option, Preserves-or_stop, Preserves-pure, Preserves-halt, Preserves-gets,
}
use seccap_sgx_bank.Account.{Account}
use seccap_sgx_bank.Host.{
  ocall_account_list_store, ocall_get_sealed_account_list_size, ocall_get_sealed_account_list,
}

-- Why the file cannot be written: it cannot be opened for writing, and is then a file that stays
-- as it is, or is missing; it is not there; or a write to it is seen to fail.
pub data Refusal : Type 0 where
  shut : Option Bytes → Refusal
  absent failing : Refusal

abbrev pub Refuses : Refusal → Io → Option Bytes → Type 0
Refuses (shut f) io file = (io.can_write ≡ false) × (file ≡ f)
Refuses absent io file = file ≡ none
Refuses failing io file = io.write_succeeds ≡ false

pub record Refused (k : Refusal) (w : World) : Type 0 where
  pub why : Refuses k w.io w.file

-- What changes neither the file nor its host.
pub Preserves-host :
    {A : Type 0} {k : Refusal} (m : M A)
    → ((w : World) → (let (r, w') = m w in (w'.io ≡ w.io) × (w'.file ≡ w.file)))
    → Preserves (Refused k) m
Preserves-host {k = k} m same = record {
  at = λ w h. record {
    why =
        subst (λ i. Refuses k i (let (r, w') = m w in w'.file)) (sym (same w).0)
          (subst (λ f. Refuses k w.io f) (sym (same w).1) h.why);
  };
}

module _ {k : Refusal} where
  pub Preserves-print : (l : Line) → Preserves (Refused k) (print l)
  Preserves-print l = Preserves-host (print l) (λ w. (refl, refl))

  pub Preserves-store : (p : ℕ) (a : Account) → Preserves (Refused k) (store p a)
  Preserves-store p a = Preserves-host (store p a) (λ w. (refl, refl))

  pub Preserves-alloc : (a : Account) → Preserves (Refused k) (alloc a)
  Preserves-alloc a = Preserves-host (alloc a) (λ w. (refl, refl))

  pub Preserves-set_this : (m : DealManager) → Preserves (Refused k) (set_this m)
  Preserves-set_this m = Preserves-host (set_this m) (λ w. (refl, refl))

  pub Preserves-this : Preserves (Refused k) this
  Preserves-this = record {
    at = λ w. let k = Preserves-or_stop {P = Refused k} Stop.null_pointer w.deal_manager in k.at w;
  }

  pub Preserves-load : (p : ℕ) → Preserves (Refused k) (load p)
  Preserves-load p = record {
    at = λ w.
        let k = Preserves-or_stop {P = Refused k} Stop.dangling_pointer (get_elem? w.heap p) in
        k.at w;
  }

  pub Preserves-assert : (b : Bool) → Preserves (Refused k) (assert b)
  Preserves-assert true = Preserves-host (assert true) (λ w. (refl, refl))
  Preserves-assert false = Preserves-host (assert false) (λ w. (refl, refl))

  pub Preserves-when :
      (b : Bool) (m : M (Unit {0})) → Preserves (Refused k) m → Preserves (Refused k) (when b m)
  Preserves-when true m k = k
  Preserves-when false m k = Preserves-host (when false m) (λ w. (refl, refl))

  pub ocall_account_list_store-Refused :
      (text : Bytes) → Preserves (Refused k) (ocall_account_list_store text)
  unfolding ocall_account_list_store
  ocall_account_list_store-Refused text = record {
    at = elim k [
      | shut f ↦ λ w h. let y = h.why in record { why = ground arith }
      | absent ↦ λ w h. let y = h.why in record { why = ground arith }
      | failing ↦ λ w h. let y = h.why in record { why = ground arith }
    ];
  }

  pub ocall_get_sealed_account_list_size-Refused :
      Preserves (Refused k) ocall_get_sealed_account_list_size
  unfolding ocall_get_sealed_account_list_size
  ocall_get_sealed_account_list_size-Refused =
      Preserves-host ocall_get_sealed_account_list_size (λ w. (ground arith, ground arith))

  pub ocall_get_sealed_account_list-Refused :
      (size : ℕ) → Preserves (Refused k) (ocall_get_sealed_account_list size)
  unfolding ocall_get_sealed_account_list
  ocall_get_sealed_account_list-Refused size =
      Preserves-host (ocall_get_sealed_account_list size) (λ w. (ground arith, ground arith))

pub ruleset refused = (
  preserving, Preserves-print, Preserves-store, Preserves-alloc, Preserves-set_this, Preserves-this,
  Preserves-load, Preserves-assert, Preserves-when, ocall_account_list_store-Refused,
  ocall_get_sealed_account_list_size-Refused, ocall_get_sealed_account_list-Refused,
)
