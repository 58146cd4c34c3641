-- ===== src/Server/Refinement.antt =====
-- The server's messages and sessions against Server/Respond.antt: whatever bytes are received.
use seccap_sgx_bank.Base.{
  ◌≡◌, inl, inr, refl, ◌∙◌, some, Bool, true, Bool-cases, List, [], ◌∷◌, ◌++◌, leb, length, All,
  arith, Bytes,
}
use seccap_sgx_bank.CLib.{c_str}
use seccap_sgx_bank.Bank.{Bank}
use seccap_sgx_bank.Sgx.{Sgx, SgxLaws}
use seccap_sgx_bank.World.{World, M, pure, print, ◌>>◌, ◌>>=◌, ok, stop, finished}
use seccap_sgx_bank.DealManager.Parse.{IsField}
use seccap_sgx_bank.Enclave.Inv.{Inv, Fits, Inv-console}
use seccap_sgx_bank.Server.Cut.{cut, cut-Cuts, split-cut}
use seccap_sgx_bank.Server.Respond.{Response, perform, respond}
use seccap_sgx_bank.Server.{Machine, Outcome, reply, server_end, split, execute, handle}
use seccap_sgx_bank.Server.Perform.{Gives, execute-perform}
use seccap_sgx_bank.Server.{Recv, closed, failed, received, receive_buf, reception}
use seccap_sgx_bank.Server.Respond.{respond_all, answer_first, go_on}
use seccap_sgx_bank.World.{perror_recv}

module _ (sgx : Sgx) (machine : Machine) where
  module _ (laws : SgxLaws sgx) where
    -- What `handle` adds to the execution of a message.
    abbrev finishing : M Outcome → M Outcome
    finishing run = do
      outcome ← run
      elim outcome [
        | server_end ↦ pure server_end
        | reply bytes ↦ (do print finished; pure (reply bytes))
      ]

    finishing-Gives :
        (run : M Outcome) (w : World) (p : Response Outcome)
        → Gives sgx (run w) p
        → Gives sgx (finishing run w) p
    finishing-Gives run w (stop s, b) (w', e, kept) = (w', ground (arith, e), tt)
    finishing-Gives run w (ok server_end, b) (w', e, kept) = (w', ground (arith, e), kept)
    finishing-Gives run w (ok (reply bytes), b) (w', e, kept) = (
      record w' { console = w'.console ++ finished ∷ [] },
      ground (arith, e),
      Inv-console sgx b _ w' kept,
    )

    handle-perform :
        (b : Bank) (w : World) (buf : Bytes) (fields : List Bytes)
        → Inv sgx b w
        → split buf ≡ some fields
        → All IsField fields
        → Fits sgx (let (r, b') = perform machine b buf fields in b'.accounts)
        → Gives sgx (handle machine sgx buf w) (perform machine b buf fields)
    unfolding handle perform
    handle-perform b w buf [] v e h fits = (w, ground arith, tt)
    handle-perform b w buf (f ∷ fields) v e h fits =
        let (w', run, kept) =
          finishing-Gives (execute machine sgx buf (c_str f) (f ∷ fields)) w
            (perform machine b buf (f ∷ fields))
            (execute-perform sgx machine laws b w buf f fields v h.1 fits) in
        (w', ground (arith, run), kept)

    -- Whatever bytes are in the buffer, on a state that stands for a bank the server answers what
    -- `respond` says, also where it stops with a fault, and unless it has stopped, it reaches a
    -- state that stands for the bank of `respond`, with the file up to date. The accounts
    -- afterwards must fit 16 bits, also when sealed.
    pub handle-respond :
        (b : Bank) (w : World) (buf : Bytes)
        → Inv sgx b w
        → Fits sgx (let (r, b') = respond machine b buf in b'.accounts)
        → Gives sgx (handle machine sgx buf w) (respond machine b buf)
    unfolding handle respond
    handle-respond b w buf v fits =
        let h = cut-Cuts buf in
        elim (Bool-cases (leb (length (cut buf).0) 3)) [
          | inl few ↦
              rw few
                (handle-perform b w buf (cut buf).0 v (split-cut buf ∙ rw few) h.1 (rw few at fits))
          | inr many ↦ rw (many, split-cut buf, many) (w, refl, tt)
        ]

    -- The accounts fit after each message of a session.
    abbrev pub FitsThrough : Bank → List Recv → Type 0
    FitsThrough b [] = Unit
    FitsThrough b (received bytes ∷ events) =
        Fits sgx (let (r, b') = respond machine b (receive_buf bytes) in b'.accounts)
        × FitsThrough (respond machine b (receive_buf bytes)).1 events
    FitsThrough b (_ ∷ events) = FitsThrough b events

    -- What the reception does after the response to a message.
    reception-answer :
        (w : World) (text : Bytes) (events : List Recv) (p : Response (List Bytes × Bool))
        → Gives sgx (reception machine sgx events w) p
        → Gives sgx
            ((do (texts, ended) ← reception machine sgx events; pure (text ∷ texts, ended)) w)
            (answer_first text p)
    reception-answer w text events (stop s, b) (w', e, kept) = (w', ground (arith, e), tt)
    reception-answer w text events (ok (texts, ended), b) (w', e, kept) =
        (w', ground (arith, e), kept)

    -- The reception from the execution of a message on.
    abbrev receiving : M Outcome → List Recv → M (List Bytes × Bool)
    receiving run events = do
      outcome ← run
      elim outcome [
        | server_end ↦ pure ([], true)
        | reply text ↦ (do
          (texts, ended) ← reception machine sgx events
          pure (text ∷ texts, ended))
      ]

    receiving-go_on :
        (run : M Outcome) (w : World) (events : List Recv) (p : Response Outcome)
        → Gives sgx (run w) p
        → ((b : Bank) (w' : World)
            → Inv sgx b w'
            → FitsThrough b events
            → Gives sgx (reception machine sgx events w') (respond_all machine b events))
        → FitsThrough p.1 events
        → Gives sgx (receiving run events w) (go_on p (λ b'. respond_all machine b' events))
    receiving-go_on run w events (stop s, b) (w', e, kept) rest fits = (w', ground (arith, e), tt)
    receiving-go_on run w events (ok server_end, b) (w', e, kept) rest fits =
        (w', ground (arith, e), kept)
    receiving-go_on run w events (ok (reply text), b) (w', e, kept) rest fits =
        let (w'', ran, keeps) =
          reception-answer w' text events (respond_all machine b events) (rest b w' kept fits) in
        (w'', ground (arith, e, ran), keeps)

    -- A session, whatever is received: from a state that stands for a bank the reception answers
    -- what `respond_all` says, ends exactly when it says so, stops with the fault that it says, and
    -- unless it has stopped, it reaches a state that stands for its bank, with the file up to date.
    -- The accounts must fit 16 bits, also when sealed, after each message.
    pub reception-respond_all :
        (events : List Recv) (b : Bank) (w : World)
        → Inv sgx b w
        → FitsThrough b events
        → Gives sgx (reception machine sgx events w) (respond_all machine b events)
    unfolding reception respond_all
    reception-respond_all [] b w v fits = (w, refl, v)
    reception-respond_all (closed ∷ events) b w v fits = reception-respond_all events b w v fits
    reception-respond_all (failed ∷ events) b w v fits =
        reception-respond_all events b (record w { console = w.console ++ perror_recv ∷ [] })
          (Inv-console sgx b _ w v) fits
    reception-respond_all (received bytes ∷ events) b w v fits =
        receiving-go_on (handle machine sgx (receive_buf bytes)) w events
          (respond machine b (receive_buf bytes)) (handle-respond b w (receive_buf bytes) v fits.0)
          (λ b' w' inv f. reception-respond_all events b' w' inv f) fits.1
