-- ===== src/CLib/Text.antt =====
-- C strings and their comparisons.
use seccap_sgx_bank.Base.{◌≡◌, ◌≢◌, refl, true, [], ◌∷◌, ◌++◌, length, All, bytes_eq, arith, Bytes}
use seccap_sgx_bank.CLib.{c_str, strcmp_eq, strncmp_eq}

-- No NUL among the bytes.
abbrev pub IsText : Bytes → Type 0
IsText = All (λ c. c ≢ 0)

pub c_str-IsText : (s : Bytes) → IsText s → c_str s ≡ s
unfolding c_str
c_str-IsText [] h = refl
c_str-IsText (c ∷ s) h = ground (arith, c_str-IsText s h.1)

-- A NUL ends the text, whatever stands behind it.
pub c_str-append : (s junk : Bytes) → IsText s → c_str (s ++ (0 ∷ junk)) ≡ s
unfolding c_str
c_str-append [] junk h = refl
c_str-append (c ∷ s) junk h = ground (arith, c_str-append s junk h.1)

-- On texts `strcmp` decides equality.
pub strcmp_eq-bytes_eq : (a b : Bytes) → IsText a → IsText b → strcmp_eq a b ≡ bytes_eq a b
unfolding strcmp_eq
strcmp_eq-bytes_eq a b ha hb = rw (c_str-IsText a ha, c_str-IsText b hb)

-- A text is told by its first characters.
pub strncmp_eq-append : (s rest : Bytes) → strncmp_eq s (s ++ rest) (length s) ≡ true
unfolding strncmp_eq
strncmp_eq-append [] rest = refl
strncmp_eq-append (c ∷ s) rest = ground (arith, strncmp_eq-append s rest)
