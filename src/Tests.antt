-- ===== src/Tests.antt =====
-- Concrete runs: a sealing function, a machine and a bank for which the hypotheses hold.
mod Storage
mod Requests
mod Session
mod Whole
mod Refusal
mod Visits
mod Deals
mod Threading
mod Samples
use seccap_sgx_bank.Base.{
  ℕ, zero, suc, ◌+◌, ◌-◌, ◌^◌, ◌<◌, ◌≡◌, refl, sym, ap, ◌∙◌, true, Option, none, some, List, [],
  ◌∷◌, ◌++◌, append_assoc, inl, ◌==◌, if◌then◌else◌, length, length-append, length-replicate, take,
  take-append, drop, replicate, arith, Bytes,
}
use seccap_sgx_bank.CLib.{u16_mod, le_bytes}
use seccap_sgx_bank.Account.{Account}
use seccap_sgx_bank.Account
use seccap_sgx_bank.Bank.{Bank}
use seccap_sgx_bank.Sgx.{Sgx, SgxLaws}
use seccap_sgx_bank.Sealing
use seccap_sgx_bank.World.{World, DealManager, Io}
use seccap_sgx_bank.DealManager
use seccap_sgx_bank.Enclave.Inv.{Inv, Live, Fits, Distinct, PointsAt}
use seccap_sgx_bank.Server.{Machine}

-- A blob is the two lengths, the additional text and the secret.
abbrev toy_blob : Bytes → Bytes → Bytes
toy_blob mac secret = length mac ∷ length secret ∷ mac ++ secret

abbrev pub toy_sgx : Sgx
toy_sgx = record {
  calc_sealed_data_size = λ mac txt. mac + txt + 2;
  seal_data = λ draw mac secret n.
      if n == length mac + length secret + 2 then some (toy_blob mac secret) else none;
  get_add_mac_txt_len = λ b. elim b [ [] ↦ 0 | m ∷ _ ↦ m ];
  get_encrypt_txt_len = λ b. elim b [ m ∷ t ∷ _ ↦ t | _ ↦ 0 ];
  unseal_data = λ b. elim b [ m ∷ t ∷ r ↦ some (take m r, take t (drop m r)) | _ ↦ none ];
}

drop-append : (xs ys : Bytes) → drop (length xs) (xs ++ ys) ≡ ys
drop-append [] ys = refl
drop-append (x ∷ xs) ys = drop-append xs ys

toy_seal-blob :
    (draw : ℕ) (mac secret b : Bytes) (n : ℕ)
    → Sgx.seal_data toy_sgx draw mac secret n ≡ some b
    → (b ≡ toy_blob mac secret) × (n ≡ length mac + length secret + 2)
toy_seal-blob draw mac secret b n e = ground arith

toy_unseal-blob :
    (mac secret rest : Bytes)
    → Sgx.unseal_data toy_sgx (toy_blob mac secret ++ rest) ≡ some (mac, secret)
toy_unseal-blob mac secret rest = rw (
  append_assoc mac secret rest,
  take-append mac (secret ++ rest),
  drop-append mac (secret ++ rest),
  take-append secret rest,
)

pub toy_laws : SgxLaws toy_sgx
toy_laws = record {
  seal_succeeds = λ draw mac secret p h. (toy_blob mac secret, ground arith);
  txt-lt-calc = λ mac txt h. omega arith;
  seal_fails_short = λ draw mac secret n h. ground arith;
  length-seal = λ draw mac secret b n e.
      ground (arith, toy_seal-blob draw mac secret b n e, length-append mac secret);
  mac_len-seal = λ draw mac secret b rest n e. rw ((toy_seal-blob draw mac secret b n e).0);
  txt_len-seal = λ draw mac secret b rest n e. rw ((toy_seal-blob draw mac secret b n e).0);
  unseal-seal = λ draw mac secret b rest n e.
      rw ((toy_seal-blob draw mac secret b n e).0) (toy_unseal-blob mac secret rest);
}

-- Arrays that happen to hold zeros.
abbrev pub toy_machine : Machine
toy_machine = record {
  atoi_open = λ s. 0;
  garbage = λ n. replicate n 0;
  length-garbage = λ n. (let zero_byte : ℕ = 0 in length-replicate n zero_byte);
}

abbrev pub willing : Io
willing = record {
  can_write = true;
  write_succeeds = true;
  close_succeeds = true;
  after_failed_write = [];
  can_read = true;
  can_seek = true;
}

-- A customer of 100, alone and served, before anything was stored.
abbrev pub alice : Account
alice = Account.make (b'a' ∷ []) (b'p' ∷ []) 100

-- The enclave after its start on an empty file, and the bank that it stands for.
abbrev pub empty_world : World
empty_world = record {
  heap = [];
  deal_manager = some DealManager.make;
  file = some [];
  io = willing;
  draws = 0;
  console = [];
}

abbrev pub empty_bank : Bank
empty_bank = record { accounts = []; current = none }

pub empty_Inv : Inv toy_sgx empty_bank empty_world
empty_Inv = record {
  live = record {
    manager = DealManager.make;
    manager_is = refl;
    sealing_is = refl;
    shows = tt;
    distinct = tt;
    current_is = tt;
    storable = tt;
    texts = tt;
    fits = record { plain_fits = omega arith; sealed_fits = omega arith };
    can_write = refl;
    write_succeeds = refl;
    close_succeeds = refl;
    old_file = [];
    file_is = refl;
  };
  synced = inl (refl, refl);
}
