-- ===== src/Connections/Kept/Blocks.antt =====
-- peer_connection.go: blocks that bytes come into, and packets that are sent.
use ged2k.Prelude.{
  ◌%◌, ◌^◌, ℕ, ◌+◌, ◌≡◌, refl, Bool, true, false, Bool-cases, Option, none, some, inl, inr, List,
  [], ◌∷◌, ◌++◌, set, get_elem?, All, All-append, ok, panic, Ensures, Ensures->>=, Ensures-any,
  if_both, if◌then◌else◌, ltb, ◌-◌, length, arith,
}
use ged2k.Prelude.Int.{ℤ, pos, negsuc}
use ged2k.Region.{is_empty}
use ged2k.Proto.Buffer.{Error, StateBuffer}
use ged2k.Proto.Basic.{write_header}
use ged2k.Proto.Geometry.{PieceBlock, in_block_offset}
use ged2k.Pieces.Pending.{
  PendingBlock, Received, read_into, receive, receive_to_eof, keep_received, remove_pending_block,
}
use ged2k.Proto.Combiner.{ReadFull, filled, short, Io}
use ged2k.Connections.{
  Network, Connection, Output, block_out, close_connection, close_on_error, after_write,
  write_packet, send_packet,
}
use ged2k.Connections.Packets.{settle, after_receive, ready_if_none}
use ged2k.Connections.Totals.{total, total-set_same, total-remove_pending_block, get_elem?-set_self}
use ged2k.Connections.Kept.{
  passed_on, IsComplete, IsStill, IsKept, passed_on-append, ready_if_none-passed,
  ready_if_none-IsComplete,
}

module _ {R : Type 0} (io : Io R) where
  pub keep_received-block :
      (x : PendingBlock) (at_ begin : ℕ) (got : ReadFull R)
      → (keep_received io x at_ begin got).pending.block ≡ x.block
  unfolding keep_received
  keep_received-block x at_ begin (filled bs s) = refl
  keep_received-block x at_ begin (short bs s) = refl

  pub guarded :
      (x : PendingBlock) (b : Bool) (r : Received R)
      → r.pending.block ≡ x.block
      → Ensures (λ r. r.pending.block ≡ x.block) (if b then panic else ok r)
  guarded x true r h = tt
  guarded x false r h = h

  pub receive-block :
      (x : PendingBlock) (s : R) (begin end : ℕ)
      → Ensures (λ r. r.pending.block ≡ x.block) (receive io x s begin end)
  unfolding receive
  receive-block x s begin end =
      let chunk = (end + 2 ^ 64 - begin) % 2 ^ 64 in
      guarded x (ltb (length x.contents) (in_block_offset begin + chunk))
        (keep_received io x (in_block_offset begin) begin (read_into io chunk s))
        (keep_received-block x (in_block_offset begin) begin (read_into io chunk s))

  pub receive_to_eof-block :
      (x : PendingBlock) (s : R) (begin : ℕ)
      → Ensures (λ r. r.pending.block ≡ x.block) (receive_to_eof io x s begin)
  unfolding receive_to_eof
  receive_to_eof-block x s begin =
      let n = length x.contents - in_block_offset begin in
      guarded x (ltb (length x.contents) (in_block_offset begin))
        (keep_received io x (in_block_offset begin) begin (read_into io n s))
        (keep_received-block x (in_block_offset begin) begin (read_into io n s))

module _ {S : Type 0} (v : PieceBlock → ℕ) (c : Connection S) (i : ℕ) (old : PendingBlock)
    (found : get_elem? c.requested i ≡ some old) where
  pub settle-IsKept :
      (x : PendingBlock) (outputs : List Output)
      → x.block ≡ old.block
      → passed_on outputs ≡ []
      → All IsComplete outputs
      → Ensures (IsKept v c) (settle c i x outputs)
  unfolding settle total
  settle-IsKept x outputs same quiet done = elim (Bool-cases (is_empty x.region)) [
    | inl e ↦
        rw (e, settle)
          (Ensures->>= _ (IsKept v c) (remove_pending_block (set c.requested i x) i) _
            (total-remove_pending_block v (set c.requested i x) i x
              (get_elem?-set_self c.requested i old x found))
            (λ left h. record {
              kept =
                  rw
                    (
                      passed_on-append outputs (block_out x ∷ ready_if_none left),
                      quiet,
                      ready_if_none-passed left,
                    )
                    (omega (arith, h, total-set_same v c.requested i old x found same));
              complete =
                  All-append IsComplete outputs (block_out x ∷ ready_if_none left) done
                    (e, ready_if_none-IsComplete left);
            }))
    | inr e ↦
        rw (e, settle)
          (record {
            kept = rw quiet (omega (arith, total-set_same v c.requested i old x found same));
            complete = done;
          })
  ]

  pub after_receive-IsKept :
      {R : Type 0} (before counted : List Output) (r : Received R)
      → r.pending.block ≡ old.block
      → passed_on before ≡ []
      → passed_on counted ≡ []
      → All IsComplete before
      → All IsComplete counted
      → Ensures (IsKept v c) (after_receive c i before counted r)
  unfolding after_receive total
  after_receive-IsKept before counted r same q1 q2 d1 d2 = elim (Bool-cases r.failed) [
    | inl e ↦
        rw (e, after_receive)
          (record {
            kept = rw q1 (omega (arith, total-set_same v c.requested i old r.pending found same));
            complete = d1;
          })
    | inr e ↦
        rw (e, after_receive)
          (settle-IsKept r.pending (before ++ counted) same
            (rw (passed_on-append before counted, q1, q2))
            (All-append IsComplete before counted d1 d2))
  ]

module _ {S Z : Type 0} (net : Network S Z) where
  pub close_connection-requested :
      (c : Connection S) → Ensures (λ c'. c'.requested ≡ c.requested) (close_connection net c)
  unfolding close_connection
  close_connection-requested c =
      if_both (Ensures {A = Connection S} (λ c'. c'.requested ≡ c.requested)) c.connected
        (if_both (Ensures {A = Connection S} (λ c'. c'.requested ≡ c.requested)) c.dialed refl tt)
        refl

  pub close_on_error-requested :
      (e : Option Error) (c : Connection S)
      → Ensures (λ c'. c'.requested ≡ c.requested) (close_on_error net e c)
  unfolding close_on_error
  close_on_error-requested none c = refl
  close_on_error-requested (some e) c = close_connection-requested c

  pub after_write-IsStill :
      (bytes : List ℕ) (c : Connection S) (w : Bool × S)
      → Ensures (IsStill c) (after_write net bytes c w)
  unfolding after_write
  after_write-IsStill bytes c (true, s) = (refl, refl, (tt, (tt, tt)))
  after_write-IsStill bytes c (false, s) =
      Ensures->>= _ (IsStill c) (close_connection net (record c { rest = s })) _
        (close_connection-requested (record c { rest = s })) (λ c' e. (e, refl, tt))

  pub send_packet-IsStill :
      (protocol packet : ℕ) (size : ℤ) (put : StateBuffer → StateBuffer) (c : Connection S)
      → Ensures (IsStill c) (send_packet net protocol packet size put c)
  unfolding send_packet write_packet
  send_packet-IsStill protocol packet (negsuc size) put c = tt
  send_packet-IsStill protocol packet (pos size) put c =
      Ensures->>= _ (IsStill c) (close_on_error net _ c) _ (close_on_error-requested _ c) (λ c' e.
        Ensures->>= _ (IsStill c) (write_header _ _) _ (Ensures-any (write_header _ _))
          (λ b u. rw (← e) (after_write-IsStill _ c' _)))
