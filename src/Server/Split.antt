-- ===== src/Server/Split.antt =====
-- What the server takes a message for.
use seccap_sgx_bank.Base.{
  ◌+◌, ◌≤◌, ◌≡◌, refl, ◌∙◌, none, some, List, [], ◌∷◌, ◌++◌, append_assoc, append-nil, leb,
  if◌then◌else◌, length, length-append, All, arith, Bytes,
}
use seccap_sgx_bank.DealManager.Parse.{IsField}
use seccap_sgx_bank.Server.{split_loop, split}

-- The fields of a message, each with a comma behind it, and a tail.
abbrev pub message : List Bytes → Bytes → Bytes
message [] tail = tail
message (f ∷ fields) tail = f ++ (b',' ∷ message fields tail)

split_loop-field :
    (f field rest : Bytes) (fields : List Bytes)
    → IsField f
    → split_loop (f ++ rest) field fields ≡ split_loop rest (field ++ f) fields
unfolding split_loop
split_loop-field [] field rest fields h = rw append-nil
split_loop-field (c ∷ f) field rest fields h =
    ground
      (arith, split_loop-field f (field ++ c ∷ []) rest fields h.1, append_assoc field (c ∷ []) f)

split_loop-tail :
    (tail field : Bytes) (fields : List Bytes)
    → IsField tail
    → split_loop tail field fields ≡ some fields
unfolding split_loop
split_loop-tail [] field fields h = refl
split_loop-tail (c ∷ tail) field fields h =
    ground (arith, split_loop-tail tail (field ++ c ∷ []) fields h.1)

split_loop-message :
    (fs fields : List Bytes) (tail : Bytes)
    → All IsField fs
    → IsField tail
    → length fields ≤ 3
    → split_loop (message fs tail) [] fields
      ≡ (if leb (length fields + length fs) 3 then some (fields ++ fs) else none)
unfolding split_loop
split_loop-message [] fields tail h t n =
    ground (arith, split_loop-tail tail [] fields t, append-nil fields)
split_loop-message (f ∷ fs) fields tail h t n = ground (
  arith,
  split_loop-field f [] (b',' ∷ message fs tail) fields h.0,
  split_loop-message fs (fields ++ f ∷ []) tail h.1 t,
  length-append fields (f ∷ []),
  append_assoc fields (f ∷ []) fs,
)

-- Of a message whose fields and tail hold no comma the server takes exactly the fields, where
-- there are three at most, and drops the tail; with a fourth comma it writes outside of `data`.
pub split-message :
    (fs : List Bytes) (tail : Bytes)
    → All IsField fs
    → IsField tail
    → split (message fs tail) ≡ (if leb (length fs) 3 then some fs else none)
unfolding split
split-message fs tail h t = split_loop-message fs [] tail h t (omega arith) ∙ ground arith
