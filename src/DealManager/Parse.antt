-- ===== src/DealManager/Parse.antt =====
-- `AccountListSetting`'s parser on the lines that `AccountListStoreStorage` wrote, and on any bytes.
use seccap_sgx_bank.Base.{
  ℕ, zero, suc, ◌+◌, ◌<◌, ◌≤◌, ◌≡◌, ◌≢◌, refl, inl, inr, Option, none, some, List, [], ◌∷◌, ◌++◌,
  append_assoc, length, length-append, All, Option-cases, arith, Bytes,
}
use seccap_sgx_bank.CLib.{le_bytes, read_le}
use seccap_sgx_bank.CLib.LittleEndian.{read_le-le_bytes}
use seccap_sgx_bank.Account.{Account}
use seccap_sgx_bank.Account.Balance.{InRange}
use seccap_sgx_bank.World.{World, DealManager, Result, Result-cases, ok, stop, out_of_fuel}
use seccap_sgx_bank.DealManager.{read_field, parse_account, push_account, parse_loop}
use seccap_sgx_bank.DealManager.Marshal.{encode, encode_all, length-encode, IsMade}

-- A name or a password that can be told from the comma behind it.
abbrev pub IsField : Bytes → Type 0
IsField = All (λ c. c ≢ b',')

read_field-append :
    (field rest : Bytes) → IsField field → read_field (field ++ (b',' ∷ rest)) ≡ some (field, rest)
unfolding read_field
read_field-append [] rest h = refl
read_field-append (c ∷ field) rest h = ground (arith, read_field-append field rest h.1)

-- An account that a line of the file can stand for.
pub record IsStorable (a : Account) : Type 0 where
  pub made : IsMade a
  pub name_field : IsField a.name
  pub password_field : IsField a.password
  pub in_range : InRange a

encode-append :
    (a : Account) (rest : Bytes)
    → encode a ++ rest
      ≡ a.name ++ (b',' ∷ (a.password ++ (b',' ∷ (le_bytes 8 a.deposits ++ (b'\n' ∷ rest)))))
encode-append a rest = simp append_assoc

parse_account-encode :
    (a : Account) (rest : Bytes) (w : World)
    → IsStorable a
    → parse_account (encode a ++ rest) w ≡ (ok (a, rest), w)
unfolding parse_account
parse_account-encode a rest w s =
    let behind = b'\n' ∷ rest in
    let word = le_bytes 8 a.deposits ++ behind in
    let made = s.made in
    rw (encode-append a rest) (
      ground (
        arith,
        read_field-append a.name (a.password ++ (b',' ∷ word)) s.name_field,
        read_field-append a.password word s.password_field,
        read_le-le_bytes 8 a.deposits behind s.in_range,
        made,
      ))

-- The world with a further account, at a new address, at the end of the manager's list.
abbrev pub with_account : DealManager → Account → World → World
with_account m a w = record w {
  heap = w.heap ++ a ∷ [];
  deal_manager = some (record m { account_list = m.account_list ++ length w.heap ∷ [] });
}

abbrev pub with_accounts : DealManager → List Account → World → World
with_accounts m [] w = record w { deal_manager = some m }
with_accounts m (a ∷ accounts) w =
    with_accounts (record m { account_list = m.account_list ++ length w.heap ∷ [] }) accounts
      (with_account m a w)

push_account-with_account :
    (m : DealManager) (a : Account) (w : World)
    → w.deal_manager ≡ some m
    → push_account a w ≡ (ok tt, with_account m a w)
unfolding push_account
push_account-with_account m a w e = ground arith

-- The loop takes up every account of a list of lines whose end is the end of the buffer, and stops
-- there, if the names and passwords hold no comma and the balances are 64-bit numbers.
pub parse_loop-encode_all :
    (accounts : List Account) (fuel total : ℕ) (m : DealManager) (a : Account) (w : World)
    → All IsStorable (a ∷ accounts)
    → length (encode_all (a ∷ accounts)) < fuel
    → length (encode_all (a ∷ accounts)) ≤ total
    → w.deal_manager ≡ some m
    → parse_loop fuel total total (encode_all (a ∷ accounts)) w
      ≡ (ok tt, with_accounts m (a ∷ accounts) w)
unfolding parse_loop
parse_loop-encode_all accounts zero total m a w s f t e = absurd (omega arith)
parse_loop-encode_all [] (suc fuel) total m a w s f t e =
    ground (arith, parse_account-encode a [] w s.0, push_account-with_account m a w e)
parse_loop-encode_all (b ∷ accounts) (suc fuel) total m a w s f t e =
    let next = record m { account_list = m.account_list ++ length w.heap ∷ [] } in
    ground (
      arith,
      parse_account-encode a (encode_all (b ∷ accounts)) w s.0,
      push_account-with_account m a w e,
      length-append (encode a) (encode_all (b ∷ accounts)),
      length-append (encode b) (encode_all accounts),
      length-encode a,
      length-encode b,
      parse_loop-encode_all accounts fuel total next b (with_account m a w) s.1,
    )

-- On any bytes: a reader that succeeds leaves no more than it was given.
abbrev Shorter : {A : Type 0} → ℕ → Option (A × Bytes) → Type 0
Shorter n none = Unit
Shorter n (some r) = length r.1 < n

read_field-Shorter : (bytes : Bytes) → Shorter (length bytes) (read_field bytes)
unfolding read_field
read_field-Shorter [] = tt
read_field-Shorter (c ∷ bytes) = ground (arith, read_field-Shorter bytes)

read_le-Shorter : (n : ℕ) (bytes : Bytes) → Shorter (length bytes + 1) (read_le n bytes)
unfolding read_le
read_le-Shorter zero bytes = omega arith
read_le-Shorter (suc n) [] = tt
read_le-Shorter (suc n) (b ∷ bytes) = ground (arith, read_le-Shorter n bytes)

-- A round of the loop takes a byte at least, or the run stops; it never runs out of fuel.
abbrev Proceeds : ℕ → Result (Account × Bytes) × World → Type 0
Proceeds n (ok r, w) = length r.1 < n
Proceeds n (stop s, w) = s ≢ out_of_fuel

parse_account-Proceeds :
    (bytes : Bytes) (w : World) → Proceeds (length bytes) (parse_account bytes w)
unfolding parse_account
parse_account-Proceeds bytes w = grind (arith, read_field-Shorter, read_le-Shorter)

-- The fuel of the model is enough: with more fuel than bytes, a run on any bytes ends before it.
pub parse_loop-ne-out_of_fuel :
    (fuel total size : ℕ) (rest : Bytes) (w : World)
    → length rest < fuel
    → (parse_loop fuel total size rest w).0 ≢ stop out_of_fuel
unfolding parse_loop
parse_loop-ne-out_of_fuel zero total size rest w h = absurd (omega arith)
parse_loop-ne-out_of_fuel (suc fuel) total size rest w h =
    elim (Result-cases (parse_account rest w)) [
      | inr (s, w', e) ↦ ground (arith, parse_account-Proceeds rest w)
      | inl ((a, rest'), w', e) ↦ elim (Option-cases w'.deal_manager) [
        | inl missing ↦ ground arith
        | inr (m, k) ↦ ground (
          arith,
          parse_account-Proceeds rest w,
          push_account-with_account m a w' k,
          parse_loop-ne-out_of_fuel fuel total size rest' (with_account m a w'),
        )
      ]
    ]
