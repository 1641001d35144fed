-- ===== src/Ipc/Socket.antt =====
-- SendRaw, SetHealthCheck and the getters of internal/ipc/client.go. A write of the package
-- gopresence to the connection of a path is a parameter: its error, if it fails.
use discord_proxy_rpc.Base.{
  ℕ, ◌≡◌, refl, sym, ap, Bool, Option, none, some, Result-cases, inl, inr, List, Text, ℤ, ok, arith,
}
use discord_proxy_rpc.Ipc.{
  State, ReadyEvent, Client, Network, new, set_state, opened, try_paths, connect, close,
}

data SendError : Type 0 where
  not_connected : SendError
  write_failed : Text → SendError

module _ (write : Text → ℤ → Text → Option Text) where
  abbrev write_error : Option Text → Option SendError
  write_error none = none
  write_error (some e) = some (write_failed e)

  -- `none` is success.
  send_raw : Client → ℤ → Text → Option SendError
  send_raw c opcode bytes = elim c.conn [
    | none ↦ some not_connected
    | some path ↦ write_error (write path opcode bytes)
  ]

  -- A client that was never connected sends nothing.
  send_raw-new :
      (id : Text) (paths : List Text) (opcode : ℤ) (bytes : Text)
      → send_raw (new id paths) opcode bytes ≡ some not_connected
  unfolding send_raw new
  send_raw-new id paths opcode bytes = refl

  -- After a successful Connect, SendRaw writes to a path that Connect opened, and not to that of an
  -- earlier session; a Close in between does not change where it writes.
  send_raw-connect :
      (net : Network) (c d : Client) (channel : ℕ) (opcode : ℤ) (bytes : Text)
      → connect net c channel ≡ (d, none)
      → (path : Text) × (ready : Option ReadyEvent) × (try_paths net none c.paths
          ≡ ok (path, ready))
        × (send_raw d opcode bytes ≡ write_error (write path opcode bytes))
        × (send_raw (close d).0 opcode bytes ≡ write_error (write path opcode bytes))
  unfolding send_raw connect close set_state
  send_raw-connect net c d channel opcode bytes h =
      elim (Result-cases (try_paths net none c.paths)) [
        | inl (e, p) ↦ absurd (ground (arith, ap (λ x. x.1) h, p))
        | inr ((path, ready), p) ↦
            let q : opened (set_state c State.connecting) path ready channel ≡ d =
              ground (arith, ap (λ x. x.0) h, p) in
            (
              path,
              ready,
              p,
              ap (λ x. send_raw x opcode bytes) (sym q),
              ap (λ x. send_raw (close x).0 opcode bytes) (sym q),
            )
      ]

abbrev set_health_check : Client → Bool → Client
set_health_check c present = record c { health_check = present }
