-- ===== src/Launch/Start.antt =====
-- App/App.cpp: what `initialize_enclave` keeps in the token file for the next start.
use seccap_sgx_bank.Base.{
  ◌≡◌, ◌≢◌, ap, ◌∙◌, true, inl, inr, Option, none, some, Option-cases, ◌==◌, if◌then◌else◌, length,
  take, take-all, replicate, arith, Bytes,
}
use seccap_sgx_bank.Launch.{
  Platform, success, path_in, token_path, token_of, read_token, opened_file, save_token,
  initialize_enclave,
}

module _ (platform : Platform) where
  open platform use {
    max_path, token_size, home_dir, open_read, open_write, reopen_write, written, status_value,
    create_enclave,
  }

  -- The token of a file that holds a whole one, and zeros otherwise.
  abbrev pub saved_token : Option Bytes → Bytes
  saved_token none = replicate token_size 0
  saved_token (some bytes) =
      if length (take token_size bytes) == token_size
      then take token_size bytes
      else replicate token_size 0

  token_of-saved :
      (path : Bytes) (file : Option Bytes) → (token_of platform path file).0 ≡ saved_token file
  unfolding token_of
  token_of-saved path none = ground arith
  token_of-saved path (some bytes) = ground arith

  is_open-opened :
      (path : Bytes)
      → opened_file platform path ≢ none
      → (token_of platform path (open_read path)).1 ≡ true
  unfolding opened_file token_of
  is_open-opened path h = elim (Option-cases (open_read path)) [
    | inl missing ↦ ground arith
    | inr (bytes, found) ↦ ground arith
  ]

  -- The file after a start that the SDK has updated the token of, and that could save it.
  saved-file :
      (new : Bytes)
      → create_enclave (saved_token (open_read (token_path platform)))
        ≡ (status_value success, true, new)
      → opened_file platform (token_path platform) ≢ none
      → reopen_write (token_path platform) ≡ true
      → written new ≡ token_size
      → length new ≡ token_size
      → (initialize_enclave platform).2 ≡ some new
  unfolding initialize_enclave read_token save_token
  saved-file new created opened reopened all size =
      let path = token_path platform in
      let before = token_of-saved path (open_read path) in
      let is_open = is_open-opened path opened in
      let whole = take-all new token_size (omega arith) in
      let made = ap create_enclave before ∙ created in
      rw made (rw (is_open, reopened, all, whole) (ground arith))

  -- A token that the SDK has updated at one start, and that was saved whole, is the one that the next
  -- start creates the enclave from. The token has the size of a token, and the file could be opened.
  pub read_token-initialize_enclave :
      (new : Bytes)
      → create_enclave (saved_token (open_read (token_path platform)))
        ≡ (status_value success, true, new)
      → opened_file platform (token_path platform) ≢ none
      → reopen_write (token_path platform) ≡ true
      → written new ≡ token_size
      → length new ≡ token_size
      → let next = record platform { open_read = λ path. (initialize_enclave platform).2 } in
        (read_token next (token_path next)).0 ≡ new
  unfolding read_token token_path path_in
  read_token-initialize_enclave new created opened reopened all size =
      let whole = take-all new token_size (omega arith) in
      rw (saved-file new created opened reopened all size) (ground arith)
