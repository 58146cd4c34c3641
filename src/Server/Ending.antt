-- ===== src/Server/Ending.antt =====
-- When the server leaves its loops.
use seccap_sgx_bank.Base.{◌≡◌, ◌⊎◌, inl, inr, true, false, Bool-cases, List, [], ◌∷◌, arith, Bytes}
use seccap_sgx_bank.CLib.{strncmp_eq}
use seccap_sgx_bank.Sgx.{Sgx}
use seccap_sgx_bank.World.{World, Result, Result-cases, ok}
use seccap_sgx_bank.Server.{
  Machine, Outcome, reply, server_end, Recv, closed, failed, received, codes, receive_buf,
  login_process, deposit_process, withdraw_process, execute, handle, reception,
}

-- A run that does not answer `server_end`.
abbrev GoesOn : Result Outcome × World → Type 0
GoesOn (ok server_end, w) = ⊥
GoesOn _ = Unit

-- One of the received buffers begins with "end".
abbrev pub HasEnd : List Recv → Type 0
HasEnd [] = ⊥
HasEnd (received bytes ∷ events) =
    (strncmp_eq (codes "end") (receive_buf bytes) 3 ≡ true) ⊎ HasEnd events
HasEnd (_ ∷ events) = HasEnd events

module _ (machine : Machine) (sgx : Sgx) where
  deposit_process-GoesOn :
      (fields : List Bytes) (w : World) → GoesOn (deposit_process machine sgx fields w)
  unfolding deposit_process
  deposit_process-GoesOn fields w = ground arith

  withdraw_process-GoesOn :
      (fields : List Bytes) (w : World) → GoesOn (withdraw_process machine sgx fields w)
  unfolding withdraw_process
  withdraw_process-GoesOn fields w = ground arith

  login_process-GoesOn :
      (fields : List Bytes) (w : World) → GoesOn (login_process machine sgx fields w)
  unfolding login_process
  login_process-GoesOn fields w = ground arith

  execute-GoesOn :
      (buf command : Bytes) (fields : List Bytes) (w : World)
      → strncmp_eq (codes "end") buf 3 ≡ false
      → GoesOn (execute machine sgx buf command fields w)
  unfolding execute
  execute-GoesOn buf command fields w h = ground (
    arith,
    login_process-GoesOn fields w,
    deposit_process-GoesOn fields w,
    withdraw_process-GoesOn fields w,
  )

  -- Only a buffer that begins with "end" ends the reception.
  handle-GoesOn :
      (buf : Bytes) (w : World)
      → strncmp_eq (codes "end") buf 3 ≡ false
      → GoesOn (handle machine sgx buf w)
  unfolding handle
  handle-GoesOn buf w h = grind (arith, execute-GoesOn)

  -- The server leaves its loops only after a message that begins with "end"; in particular a closed
  -- connection, or a failing one, never ends it.
  pub reception-HasEnd :
      (events : List Recv) (w w' : World) (texts : List Bytes)
      → reception machine sgx events w ≡ (ok (texts, true), w')
      → HasEnd events
  unfolding reception
  reception-HasEnd [] w w' texts e = ground arith
  reception-HasEnd (closed ∷ events) w w' texts e = reception-HasEnd events w w' texts e
  reception-HasEnd (failed ∷ events) w w' texts e = reception-HasEnd events _ w' texts e
  reception-HasEnd (received bytes ∷ events) w w' texts e =
      elim (Bool-cases (strncmp_eq (codes "end") (receive_buf bytes) 3)) [
        | inl ends ↦ inl ends
        | inr other ↦ elim (Result-cases (handle machine sgx (receive_buf bytes) w)) [
          | inr (s, w₁, run) ↦ ground arith
          | inl (server_end, w₁, run) ↦ ground (arith, handle-GoesOn (receive_buf bytes) w other)
          | inl (reply text, w₁, run) ↦ elim (Result-cases (reception machine sgx events w₁)) [
            | inr (s, w₂, rest) ↦ ground arith
            | inl ((more, ended), w₂, rest) ↦
                inr (reception-HasEnd events w₁ w₂ more (ground arith))
          ]
        ]
      ]
