-- ===== src/Server/Cut.antt =====
-- The server's splitting of its buffer against a reference: the pieces before each comma, and what
-- is behind the last one. Every buffer is covered.
use seccap_sgx_bank.Base.{
  ℕ, ◌+◌, ◌≡◌, ◌≢◌, refl, sym, ap, ◌∙◌, none, some, List, [], ◌∷◌, ◌++◌, ◌==◌, Bool-cases, inl, inr,
  leb, if◌then◌else◌, length, All, arith, Bytes,
}
use seccap_sgx_bank.CLib.{c_str}
use seccap_sgx_bank.CLib.Text.{IsText}
use seccap_sgx_bank.DealManager.Parse.{IsField}
use seccap_sgx_bank.Server.{split}
use seccap_sgx_bank.Server.Split.{message, split-message}

abbrev add_front : ℕ → List Bytes × Bytes → List Bytes × Bytes
add_front c ([], tail) = ([], c ∷ tail)
add_front c (f ∷ fields, tail) = ((c ∷ f) ∷ fields, tail)

-- The fields, each of which a comma ends, and the tail.
unfoldable pub cut : Bytes → List Bytes × Bytes
cut [] = ([], [])
cut (c ∷ cs) =
    if c == b',' then (let (fields, tail) = cut cs in ([] ∷ fields, tail)) else add_front c (cut cs)

-- The parts of a buffer that was cut.
abbrev Cuts : Bytes → List Bytes × Bytes → Type 0
Cuts buf (fields, tail) = (message fields tail ≡ buf) × All IsField fields × IsField tail

add_front-Cuts :
    (c : ℕ) (buf : Bytes) (p : List Bytes × Bytes)
    → c ≢ b','
    → Cuts buf p
    → Cuts (c ∷ buf) (add_front c p)
add_front-Cuts c buf ([], tail) ne h = (ap (◌∷◌ c) h.0, tt, (ne, h.2))
add_front-Cuts c buf (f ∷ fields, tail) ne h = (ap (◌∷◌ c) h.0, ((ne, h.1.0), h.1.1), h.2)

pub cut-Cuts : (buf : Bytes) → Cuts buf (cut buf)
unfolding cut
cut-Cuts [] = (refl, tt, tt)
cut-Cuts (c ∷ cs) = elim (Bool-cases (c == b',')) [
  | inl comma ↦
      let h = cut-Cuts cs in
      let e : c ≡ b',' = ground arith in
      rw comma (ap (◌∷◌ b',') h.0 ∙ ap (λ d. d ∷ cs) (sym e), (tt, h.1), h.2)
  | inr other ↦ rw other (add_front-Cuts c cs (cut cs) (ground arith) (cut-Cuts cs))
]

-- The number of commas.
unfoldable pub commas : Bytes → ℕ
commas [] = 0
commas (c ∷ cs) = (if c == b',' then 1 else 0) + commas cs

length-add_front : (c : ℕ) (p : List Bytes × Bytes) → length (add_front c p).0 ≡ length p.0
length-add_front c ([], tail) = refl
length-add_front c (f ∷ fields, tail) = refl

pub length-cut : (s : Bytes) → length (cut s).0 ≡ commas s
unfolding cut commas
length-cut [] = refl
length-cut (c ∷ s) = ground (arith, length-cut s, length-add_front c (cut s))

pub cut-field :
    (f rest : Bytes) → IsField f → cut (f ++ (b',' ∷ rest)) ≡ (f ∷ (cut rest).0, (cut rest).1)
unfolding cut
cut-field [] rest h = refl
cut-field (c ∷ f) rest h = ground (arith, cut-field f rest h.1)

-- On every buffer the server's splitting is the reference: it takes the pieces before the commas
-- where there are three at most, and writes outside of its array where there are more.
pub split-cut :
    (buf : Bytes)
    → split buf
      ≡ (let (fields, tail) = cut buf in if leb (length fields) 3 then some fields else none)
split-cut buf =
    let h = cut-Cuts buf in ap split (sym h.0) ∙ split-message (cut buf).0 (cut buf).1 h.1 h.2

-- A C string holds no NUL, and no comma where its buffer holds none.
pub c_str-IsText : (s : Bytes) → IsText (c_str s)
unfolding c_str
c_str-IsText [] = tt
c_str-IsText (c ∷ s) = ground (arith, c_str-IsText s)

pub c_str-IsField : (s : Bytes) → IsField s → IsField (c_str s)
unfolding c_str
c_str-IsField [] h = tt
c_str-IsField (c ∷ s) h = ground (arith, c_str-IsField s h.1)
