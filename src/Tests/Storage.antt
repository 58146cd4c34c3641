-- ===== src/Tests/Storage.antt =====
-- Witnesses of the theorems on accounts, sealing, marshalling and the account file.
use seccap_sgx_bank.Tests.{toy_sgx, toy_laws, alice, empty_world}
use seccap_sgx_bank.Base.{◌≡◌, refl, some, List, [], ◌∷◌, ◌++◌, length, replicate, arith, Bytes}
use seccap_sgx_bank.CLib.{le_bytes, c_str}
use seccap_sgx_bank.UserTypes.{process_success}
use seccap_sgx_bank.World.{World, DealManager, Line, ok}
use seccap_sgx_bank.DealManager.{
  marshal_all, all_account_data_size, parse_loop, account_list_store_storage, account_list_setting,
}
use seccap_sgx_bank.DealManager
use seccap_sgx_bank.DealManager.Marshal.{encode_all, marshal_all-encode}
use seccap_sgx_bank.DealManager.Parse.{IsStorable, with_accounts, parse_loop-encode_all}
use seccap_sgx_bank.DealManager.Storage.{Stored, store_storage-Stored, setting-Holds}
use seccap_sgx_bank.Sealing.{sealing}
use seccap_sgx_bank.Sealing
use seccap_sgx_bank.Sealing.RoundTrip.{
  sealed_size, IsSealable, Holds, after_sealing, unsealing-sealing,
}

abbrev lines : Bytes
lines = encode_all (alice ∷ [])

length-lines : length lines ≡ 13
unfolding le_bytes
length-lines = refl

lines-IsSealable : IsSealable toy_sgx Sealing.make lines
unfolding c_str
lines-IsSealable = record {
  nonempty = omega (arith, length-lines);
  fits = omega (arith, length-lines);
  mac_text = tt;
}

unsealing-sealing_example :
    (blob : Bytes) × (printed : List Line) × (sealing toy_sgx Sealing.make lines
        (length lines)
        10000
        empty_world
      ≡ (ok (blob, length blob), after_sealing toy_sgx empty_world printed))
    × (length blob ≡ sealed_size toy_sgx Sealing.make lines)
    × Holds toy_sgx Sealing.make lines blob
unsealing-sealing_example =
    unsealing-sealing toy_sgx toy_laws Sealing.make lines 10000 empty_world lines-IsSealable

abbrev large : Bytes
large = replicate 70000 1

marshal_all-encode_example :
    (all_account_data_size (alice ∷ []) 0 ≡ length lines)
    × (marshal_all (alice ∷ []) (0, replicate (all_account_data_size (alice ∷ []) 0) 0) empty_world
        ≡ (ok (all_account_data_size (alice ∷ []) 0, lines), empty_world))
marshal_all-encode_example =
    marshal_all-encode (alice ∷ []) empty_world (refl, tt) (omega (arith, length-lines))

alice-IsStorable : IsStorable alice
alice-IsStorable = record {
  made = refl;
  name_field = (omega arith, tt);
  password_field = (omega arith, tt);
  in_range = omega arith;
}

parse_loop-encode_all_example :
    parse_loop 14 13 13 lines empty_world
    ≡ (ok tt, with_accounts DealManager.make (alice ∷ []) empty_world)
parse_loop-encode_all_example =
    parse_loop-encode_all [] 14 13 DealManager.make alice empty_world (alice-IsStorable, tt)
      (omega (arith, length-lines)) (omega (arith, length-lines)) refl

abbrev listed : DealManager
listed = record DealManager.make { account_list = 0 ∷ [] }

abbrev listed_world : World
listed_world = record empty_world { heap = alice ∷ []; deal_manager = some listed }

store_storage-Stored_example :
    (blob : Bytes) × (w : World) × (account_list_store_storage toy_sgx listed_world
      ≡ (ok process_success, w))
    × Stored toy_sgx toy_laws listed (alice ∷ []) [] blob listed_world w
store_storage-Stored_example =
    store_storage-Stored toy_sgx toy_laws listed (alice ∷ []) [] listed_world refl (refl, tt)
      (refl, tt) (omega (arith, length-lines)) lines-IsSealable refl refl refl refl

sealed :
    (blob : Bytes) × (length blob ≡ sealed_size toy_sgx Sealing.make lines)
    × Holds toy_sgx Sealing.make lines blob
sealed =
    let (blob, printed, run, n, holds) =
      unsealing-sealing toy_sgx toy_laws Sealing.make lines 10000 empty_world lines-IsSealable in
    (blob, n, holds)

-- The file with a sealed blob, and an old tail of two bytes behind it.
abbrev old_file : World
old_file = record empty_world { file = some (sealed.0 ++ 7 ∷ 7 ∷ []) }

setting-Holds_example :
    account_list_setting toy_sgx old_file
    ≡ (ok tt, with_accounts DealManager.make (alice ∷ []) old_file)
setting-Holds_example =
    setting-Holds toy_sgx toy_laws DealManager.make alice [] (sealed.0) (7 ∷ 7 ∷ []) old_file refl
      (alice-IsStorable, tt) (omega (arith, length-lines))
      (record { can_read = refl; can_seek = refl }) refl (omega (arith, sealed.1, length-lines))
      (sealed.2)
