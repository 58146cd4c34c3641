-- ===== src/Launch.antt =====
-- App/App.cpp: `initialize_enclave` and `print_error_message`. What the system and the SDK answer
-- is a parameter.
pub mod Start
use seccap_sgx_bank.Base.{
  ℕ, ◌+◌, ◌≤◌, ◌<◌, ◌≡◌, Bool, true, false, not, ◌||◌, Option, none, some, List, [], ◌∷◌, ◌++◌, leb,
  ◌==◌, if◌then◌else◌, length, length-append, length-replicate, Bool-cases, inl, inr, take,
  replicate, arith, Bytes,
}
use seccap_sgx_bank.Server.{codes}
use Prim.Native.String.{String}

-- The status codes of the SDK that the table names.
pub data Status : Type 0 where
  success : Status
  error_unexpected error_invalid_parameter error_out_of_memory error_enclave_lost : Status
  error_invalid_enclave error_invalid_enclave_id error_invalid_signature error_out_of_epc : Status
  error_no_device error_memory_map_conflict error_invalid_metadata error_device_busy : Status
  error_invalid_version error_invalid_attribute error_enclave_file_access : Status

-- What is printed, with the path of the token file where it is printed.
pub data Message : Type 0 where
  create_failed invalid_token save_failed : Bytes → Message
  info error : String → Message
  error_code : ℕ → Message

-- What the system and the SDK answer. `status_value` numbers the codes; the token file is read up
-- to the size of a token; the enclave is created from the token.
pub record Platform : Type 0 where
  pub max_path : ℕ
  pub token_size : ℕ
  pub home_dir : Option Bytes
  pub open_read : Bytes → Option Bytes
  pub open_write : Bytes → Bool
  pub reopen_write : Bytes → Bool
  pub written : Bytes → ℕ
  pub status_value : Status → ℕ
  pub create_enclave : Bytes → ℕ × Bool × Bytes

abbrev pub token_filename : Bytes
token_filename = codes "enclave.token"

-- `sgx_errlist`: a code, its message and its suggestion.
abbrev pub sgx_errlist : List (Status × String × Option String)
sgx_errlist =
    (error_unexpected, "Unexpected error occurred.", none)
    ∷ (error_invalid_parameter, "Invalid parameter.", none)
    ∷ (error_out_of_memory, "Out of memory.", none)
    ∷ (
      error_enclave_lost,
      "Power transition occurred.",
      some "Please refer to the sample \"PowerTransition\" for details.",
    )
    ∷ (error_invalid_enclave, "Invalid enclave image.", none)
    ∷ (error_invalid_enclave_id, "Invalid enclave identification.", none)
    ∷ (error_invalid_signature, "Invalid enclave signature.", none)
    ∷ (error_out_of_epc, "Out of EPC memory.", none)
    ∷ (
      error_no_device,
      "Invalid SGX device.",
      some "Please make sure SGX module is enabled in the BIOS, and install SGX driver afterwards.",
    )
    ∷ (error_memory_map_conflict, "Memory map conflicted.", none)
    ∷ (error_invalid_metadata, "Invalid enclave metadata.", none)
    ∷ (error_device_busy, "SGX device was busy.", none)
    ∷ (error_invalid_version, "Enclave version was invalid.", none)
    ∷ (error_invalid_attribute, "Enclave was not authorized.", none)
    ∷ (error_enclave_file_access, "Can't open enclave file.", none)
    ∷ []

module _ (platform : Platform) where
  open platform use {
    max_path, token_size, home_dir, open_read, open_write, reopen_write, written, status_value,
    create_enclave,
  }

  -- The loop of `print_error_message` over the table, and what follows it.
  unfoldable pub error_lines : List (Status × String × Option String) → ℕ → List Message
  error_lines [] ret = error_code ret ∷ []
  error_lines ((err, msg, sug) ∷ table) ret = elim (ret == status_value err) [
    | true ↦ elim sug [ none ↦ error msg ∷ [] | some s ↦ info s ∷ error msg ∷ [] ]
    | false ↦ error_lines table ret
  ]

  unfoldable pub print_error_message : ℕ → List Message
  print_error_message ret = error_lines sgx_errlist ret

  -- The path of the token file in a home directory. `sizeof(TOKEN_FILENAME)` counts the NUL.
  path_in : Option Bytes → Bytes
  path_in none = token_filename
  path_in (some home) =
      if leb (length home + 1 + (length token_filename + 1) + 1) max_path
      then home ++ (codes "/" ++ token_filename)
      else token_filename

  unfoldable pub token_path : Bytes
  unfolding path_in
  token_path = path_in home_dir

  -- The token that an opened file gives, or zeros: for a file that was just created there is
  -- nothing to read, and a token of another length is cleared.
  token_of : Bytes → Option Bytes → Bytes × Bool × List Message
  token_of path none =
      if open_write path
      then (replicate token_size 0, true, [])
      else (replicate token_size 0, false, create_failed path ∷ [])
  token_of path (some bytes) =
      let token = take token_size bytes in
      if length token == token_size
      then (token, true, [])
      else if length token == 0
      then (replicate token_size 0, true, [])
      else (replicate token_size 0, true, invalid_token path ∷ [])

  -- The token, whether the file is open afterwards, and the warnings.
  unfoldable pub read_token : Bytes → Bytes × Bool × List Message
  unfolding token_of
  read_token path = token_of path (open_read path)

  -- The token file once it has been opened: where it could not be read, opening it for writing
  -- has emptied it; `none` is a file that could not be opened.
  unfoldable pub opened_file : Bytes → Option Bytes
  opened_file path = elim (open_read path) [
    | none ↦ if open_write path then some [] else none
    | some bytes ↦ some bytes
  ]

  -- What is saved of the token, if the enclave has updated it: the file afterwards, and a warning.
  -- Reopening the file for writing empties it.
  unfoldable pub save_token : Bytes → Bytes → Bool → Bool → Option Bytes × List Message
  unfolding opened_file
  save_token path token updated is_open =
      if not updated || not is_open
      then (opened_file path, [])
      else if not (reopen_write path)
      then (opened_file path, [])
      else (
        some (take (written token) token),
        if written token == token_size then [] else save_failed path ∷ [],
      )

  -- `initialize_enclave`: `true` for 0 and `false` for -1, what was printed, and the token file
  -- afterwards.
  unfoldable pub initialize_enclave : Bool × List Message × Option Bytes
  initialize_enclave =
      let path = token_path in
      let (token, is_open, warnings) = read_token path in
      let (ret, updated, new_token) = create_enclave token in
      if ret == status_value success
      then (let (file, more) = save_token path new_token updated is_open in
          (true, warnings ++ more, file))
      else (false, warnings ++ print_error_message ret, opened_file path)

  path_in-fits : (home : Option Bytes) → 14 ≤ max_path → length (path_in home) < max_path
  unfolding path_in
  path_in-fits none h = omega arith
  path_in-fits (some home) h =
      elim (Bool-cases (leb (length home + 1 + (length token_filename + 1) + 1) max_path)) [
        | inl short ↦ rw short (ground (arith, length-append home (codes "/" ++ token_filename)))
        | inr long ↦ rw long (omega arith)
      ]

  -- Whatever the home directory is, the path of the token file fits the array of MAX_PATH bytes
  -- with its NUL, if MAX_PATH is at least 14, which the name of the file takes alone.
  pub token_path-fits : 14 ≤ max_path → length token_path < max_path
  unfolding token_path
  token_path-fits h = path_in-fits home_dir h

  token_of-length :
      (path : Bytes) (file : Option Bytes)
      → (let (token, is_open, warnings) = token_of path file in length token ≡ token_size)
  unfolding token_of
  token_of-length path none =
      let zero_byte : ℕ = 0 in ground (arith, length-replicate token_size zero_byte)
  token_of-length path (some bytes) =
      let zero_byte : ℕ = 0 in ground (arith, length-replicate token_size zero_byte)

  -- The token that the enclave is created from has the size of a token, whatever the file holds.
  pub read_token-length :
      (path : Bytes)
      → (let (token, is_open, warnings) = read_token path in length token ≡ token_size)
  unfolding read_token
  read_token-length path = token_of-length path (open_read path)
