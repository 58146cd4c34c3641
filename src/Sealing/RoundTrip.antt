-- ===== src/Sealing/RoundTrip.antt =====
-- What `unsealing` gives back of what `sealing` made, and what `sealing` makes of a secret whose
-- sealed size does not fit 16 bits.
use seccap_sgx_bank.Base.{
  ℕ, suc, ◌%◌, ◌<◌, ◌≡◌, refl, some, List, [], ◌∷◌, ◌++◌, ltb, bytes_eq_iff, if◌then◌else◌, length,
  take-append, take-all, arith, Bytes,
}
use seccap_sgx_bank.CLib.{u16_mod, c_str}
use seccap_sgx_bank.CLib.Text.{IsText, c_str-IsText}
use seccap_sgx_bank.Sgx.{Sgx, SgxLaws}
use seccap_sgx_bank.World.{World, SealingUnsealing, Line, ok, sealed_size_over_limit}
use seccap_sgx_bank.Sealing.{sealing, unsealing}

module _ (sgx : Sgx) where
  -- The size of the sealed form, before it is cut to 16 bits.
  abbrev pub sealed_size : SealingUnsealing → Bytes → ℕ
  sealed_size s secret =
      Sgx.calc_sealed_data_size sgx (length (c_str s.add_mac_txt)) (length secret)

  -- The secret is not empty, and its sealed form fits 16 bits.
  pub record IsSealable (s : SealingUnsealing) (secret : Bytes) : Type 0 where
    pub nonempty : 0 < length secret
    pub fits : sealed_size s secret < u16_mod
    pub mac_text : IsText s.add_mac_txt

  -- `unsealing` reads `secret` out of every buffer that begins with `blob`.
  abbrev pub Holds : SealingUnsealing → Bytes → Bytes → Type 0
  Holds s secret blob =
      (rest : Bytes) (w : World)
      → unsealing sgx s (blob ++ rest) w ≡ (ok (secret, length secret % u16_mod), w)

  -- Both functions leave the world as it was, but for the draw and what has been printed.
  abbrev pub after_sealing : World → List Line → World
  after_sealing w lines = record w { draws = suc w.draws; console = lines }

  lines_at : SealingUnsealing → Bytes → ℕ → World → List Line
  lines_at s secret limit w =
      if ltb limit (sealed_size s secret)
      then w.console ++ (sealed_size_over_limit (sealed_size s secret) ∷ [])
      else w.console

  module _ (laws : SgxLaws sgx) where
    open laws use {seal_succeeds, seal_fails_short, length-seal, unseal-seal}

    sealing-eq :
        (s : SealingUnsealing) (secret blob : Bytes) (limit : ℕ) (w : World)
        → IsSealable s secret
        → Sgx.seal_data sgx w.draws (c_str s.add_mac_txt) secret (sealed_size s secret) ≡ some blob
        → sealing sgx s secret (length secret) limit w
          ≡ (ok (blob, length blob), after_sealing w (lines_at s secret limit w))
    unfolding sealing lines_at
    sealing-eq s secret blob limit w v e =
        let fits = v.fits in
        ground (
          arith,
          take-all secret (length secret) (omega arith),
          length-seal w.draws (c_str s.add_mac_txt) secret blob (sealed_size s secret) e,
        )

    unsealing-eq :
        (s : SealingUnsealing) (draw n : ℕ) (secret blob : Bytes)
        → IsText s.add_mac_txt
        → Sgx.seal_data sgx draw (c_str s.add_mac_txt) secret n ≡ some blob
        → Holds s secret blob
    unfolding unsealing
    unsealing-eq s draw n secret blob text e rest w = ground (
      arith,
      unseal-seal draw (c_str s.add_mac_txt) secret blob rest n e,
      c_str-IsText s.add_mac_txt text,
      take-append s.add_mac_txt (0 ∷ []),
      (bytes_eq_iff s.add_mac_txt s.add_mac_txt).1 refl,
    )

    -- For a secret that is not empty and whose sealed form fits 16 bits: `sealing` succeeds with a
    -- blob and its size, whatever `limit` is, changes nothing of the state but the random draw and
    -- the console, and `unsealing` reads the secret back from every buffer that begins with it.
    pub unsealing-sealing :
        (s : SealingUnsealing) (secret : Bytes) (limit : ℕ) (w : World)
        → IsSealable s secret
        → (blob : Bytes) × (lines : List Line) × (sealing sgx s secret (length secret) limit w
            ≡ (ok (blob, length blob), after_sealing w lines))
          × (length blob ≡ sealed_size s secret)
          × Holds s secret blob
    unsealing-sealing s secret limit w v =
        let fits = v.fits in
        let (blob, e) =
          seal_succeeds w.draws (c_str s.add_mac_txt) secret v.nonempty (omega arith) in
        (
          blob,
          lines_at s secret limit w,
          sealing-eq s secret blob limit w v e,
          length-seal w.draws (c_str s.add_mac_txt) secret blob (sealed_size s secret) e,
          unsealing-eq s w.draws (sealed_size s secret) secret blob v.mac_text e,
        )
