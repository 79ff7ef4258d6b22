-- ===== src/Servers/Ends.antt =====
-- server_connection.go: when the session is told that a server connection has ended.
use ged2k.Prelude.{
  ℕ, zero, suc, ◌≡◌, refl, Bool, true, false, if_both, Option, none, some, List, [], ◌∷◌, ◌++◌, ◌+◌,
  ◌%◌, ◌^◌, replicate, Outcome, ok, ◌>>=◌, Ensures, Ensures->>=, Ensures-any,
}
use ged2k.Prelude.Int.{ℤ, pos, negsuc}
use ged2k.Proto.Buffer.{Error, StateBuffer, make_buffer, offset}
use ged2k.Proto.Basic.{write_header}
use ged2k.Proto.Combiner.{read_packet, op_edonkeyprot}
use ged2k.Servers.{
  Output, sent, passed, registered, unregistered, Passed, Network, ServerConnection, Sent, Request,
  size_of, put_of, packet_of, login, login_packet, after_write, write_packet, send_sized,
  send_packet, pass_all, run, start,
}

-- Nothing follows the end of the connection.
abbrev pub EndsOnce : List Output → Type 0
EndsOnce [] = Unit {0}
EndsOnce (unregistered ∷ rest) = rest ≡ []
EndsOnce (registered ∷ rest) = EndsOnce rest
EndsOnce (sent bytes ∷ rest) = EndsOnce rest
EndsOnce (passed p ∷ rest) = EndsOnce rest

EndsOnce-pass_all :
    (ps : List Passed) (outputs : List Output)
    → EndsOnce outputs
    → EndsOnce (pass_all ps ++ outputs)
unfolding pass_all
EndsOnce-pass_all [] outputs h = h
EndsOnce-pass_all (p ∷ ps) outputs h = EndsOnce-pass_all ps outputs h

module _ {S : Type 0} (net : Network S) where
  after_error :
      (ps : List Passed) (err : Option Error) (rest : Outcome (List Output))
      → Ensures EndsOnce rest
      → Ensures EndsOnce (elim err [
        | some e ↦ ok (pass_all ps ++ (unregistered ∷ []))
        | none ↦ do more ← rest; ok (pass_all ps ++ more)
      ])
  after_error ps (some e) rest h = EndsOnce-pass_all ps (unregistered ∷ []) refl
  after_error ps none rest h =
      Ensures->>= EndsOnce EndsOnce rest _ h (λ more g. EndsOnce-pass_all ps more g)

  run-EndsOnce : (n : ℕ) (c : ServerConnection S) → Ensures EndsOnce (run net n c)
  unfolding run
  run-EndsOnce zero c = tt
  run-EndsOnce (suc n) c =
      Ensures->>= _ EndsOnce (read_packet net.io c.buffer c.rest) _ (Ensures-any _) (λ p u.
        if_both (Ensures EndsOnce) p.failed refl
          (after_error _ _ _ (run-EndsOnce n (record c { buffer = p.buffer; rest = p.rest }))))

  -- What `SendPacket` sends does not end the connection.
  abbrev GoesOn : Sent S → Type 0
  GoesOn r = (outputs : List Output) → EndsOnce outputs → EndsOnce (r.1.0 ++ outputs)

  after_write-GoesOn :
      (bytes : List ℕ) (c : ServerConnection S) (w : Bool × S) → GoesOn (after_write net bytes c w)
  unfolding after_write
  after_write-GoesOn bytes c (true, s) outputs h = h
  after_write-GoesOn bytes c (false, s) outputs h = h

  write_packet-GoesOn :
      (now packet : ℕ) (sb : StateBuffer) (c : ServerConnection S)
      → Ensures GoesOn (write_packet net now packet sb c)
  unfolding write_packet
  write_packet-GoesOn now packet sb c =
      Ensures->>= (λ b. Unit {0}) GoesOn
        (write_header
          (record { protocol = op_edonkeyprot; size = (offset sb + 1) % 2 ^ 32; packet = packet })
          (replicate 6 0 ++ sb.bytes))
        _ (Ensures-any _) (λ b u. after_write-GoesOn _ _ _)

  send_sized-GoesOn :
      (now : ℕ) (r : Request) (size : ℤ) (c : ServerConnection S)
      → Ensures GoesOn (send_sized net now r size c)
  unfolding send_sized
  send_sized-GoesOn now r (negsuc size) c = tt
  send_sized-GoesOn now r (pos size) c =
      Ensures->>= _ GoesOn (put_of r (make_buffer size)) _ (Ensures-any _)
        (λ sb u. after_put sb sb.err)
    where
      after_put :
          (sb : StateBuffer) (err : Option Error)
          → Ensures GoesOn (elim err [
            | some e ↦ ok (c, ([], true))
            | none ↦ write_packet net now (packet_of r) sb c
          ])
      after_put sb (some e) = λ outputs h. h
      after_put sb none = write_packet-GoesOn now (packet_of r) sb c

  send_packet-GoesOn :
      (now : ℕ) (r : Request) (c : ServerConnection S) → Ensures GoesOn (send_packet net now r c)
  unfolding send_packet
  send_packet-GoesOn now r c =
      Ensures->>= _ GoesOn (size_of r) _ (Ensures-any _) (λ size u. send_sized-GoesOn now r size c)

  -- The session is told at most once that a server connection has ended, and after that nothing is
  -- sent or passed on, whatever packets come and whether they can be read. Where a step panics nothing
  -- is said.
  pub start-EndsOnce : (now n : ℕ) (dial : Option S) → Ensures EndsOnce (start net now n dial)
  unfolding start
  start-EndsOnce now n none = refl
  start-EndsOnce now n (some s) =
      Ensures->>= GoesOn EndsOnce (send_packet net now (login login_packet) _) _
        (send_packet-GoesOn now (login login_packet) _)
        (λ greeted g. if_both (Ensures EndsOnce) greeted.1.1 refl (
          Ensures->>= EndsOnce EndsOnce (run net n greeted.0) _ (run-EndsOnce n greeted.0)
            (λ outputs h. g outputs h)))
