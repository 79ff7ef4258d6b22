-- ===== src/Connections.antt =====
-- peer_connection.go: a connection to a peer, and how it sends a packet. What it passes to the session,
-- to its transfer and to the socket is a list of outputs. The socket and zlib are parameters.
pub mod Packets
pub mod Loop
pub mod Totals
pub mod Sent
pub mod Kept
pub mod Hellos
use ged2k.Prelude.{
  ℕ, ◌+◌, ◌%◌, ◌^◌, ◌&&◌, ◌==◌, if◌then◌else◌, Bool, true, false, Option, none, some, List, [], ◌∷◌,
  ◌++◌, length, take, replicate, Outcome, ok, panic, ◌>>=◌,
}
use ged2k.Prelude.Words.{div_int, ltb_int}
use ged2k.Prelude.Int.{ℤ, pos, negsuc}
use ged2k.Proto.Buffer.{Error, StateBuffer, make_buffer, offset}
use ged2k.Proto.Basic.{Ed2kHash, write_header}
use ged2k.Proto.Packets.{HashSet}
use ged2k.Proto.Combiner.{Io}
use ged2k.Pieces.Pending.{PendingBlock}
use ged2k.Pieces.Picker.{peer_speed_slow}
use ged2k.Stats.{Statistics, download_rate}

-- A `Write` says whether all bytes were written. `inflate` is zlib.NewReader, whose reader is read
-- like a socket.
pub record Network (S Z : Type 0) : Type 0 where
  pub io : Io S
  pub write : List ℕ → S → Bool × S
  pub close : S → S
  pub inflate : List ℕ → Option Z
  pub inflated : Io Z

-- What a connection uses of its transfer.
pub record Download : Type 0 where
  pub hash : Ed2kHash
  pub size : ℕ

-- A connection that the listener accepted has no transfer. `dialed` says that the socket is not nil,
-- `buffer` is the one of the packet combiner and `rest` the socket.
pub record Connection (S : Type 0) : Type 0 where
  pub transfer : Option Download
  pub connected : Bool
  pub disconnect_later : Bool
  pub dialed : Bool
  pub requested : List PendingBlock
  pub buffer : List ℕ
  pub rest : S

pub data LinkError : Type 0 where
  read_failed no_file out_of_parts receive_failed inflate_failed unknown_block : LinkError
  end_of_download dial_failed : LinkError
  queue_ranked : ℕ → LinkError
  bad_packet : Error → LinkError

pub data Output : Type 0 where
  sent : List ℕ → Output
  counted_sent : ℕ → Output
  counted_received : ℕ → Output
  hash_set_out : HashSet → Output
  block_out : PendingBlock → Output
  ready registered : Output
  aborted : PendingBlock → Output
  unregistered : LinkError → Output

module _ {S Z : Type 0} (net : Network S Z) where
  unfoldable pub close_connection : Connection S → Outcome (Connection S)
  close_connection c =
      if c.connected
      then (if c.dialed then ok (record c { rest = net.close c.rest }) else panic)
      else ok (record c { disconnect_later = true })

  unfoldable pub close_on_error : Option Error → Connection S → Outcome (Connection S)
  close_on_error none c = ok c
  close_on_error (some e) c = close_connection c

  unfoldable pub after_write :
      List ℕ → Connection S → Bool × S → Outcome (Connection S × List Output)
  after_write bytes c (true, s) =
      ok (record c { rest = s }, sent bytes ∷ counted_sent (length bytes) ∷ [])
  after_write bytes c (false, s) = close_connection (record c { rest = s }) >>= λ c'. ok (c', [])

  -- The header goes in front of what `Put` has written, and the bytes up to the offset are sent.
  unfoldable pub write_packet :
      ℕ → ℕ → StateBuffer → Connection S → Outcome (Connection S × List Output)
  write_packet protocol packet sb c = do
    b ←
        write_header
          (record { protocol = protocol; size = (offset sb + 1) % 2 ^ 32; packet = packet })
          (replicate 6 0 ++ sb.bytes)
    let bytes = take (offset sb + 6) b
    after_write bytes c (net.write bytes c.rest)

  -- A packet with its `Size` and its `Put`. After an error of `Put` the packet is written all the same.
  -- With a negative size the slice behind the header panics.
  unfoldable pub send_packet :
      ℕ → ℕ → ℤ → (StateBuffer → StateBuffer) → Connection S → Outcome (Connection S × List Output)
  send_packet protocol packet (negsuc size) put c = panic
  send_packet protocol packet (pos size) put c = do
    let sb = put (make_buffer size)
    c' ← close_on_error sb.err c
    write_packet protocol packet sb c'

abbrev pub peer_speed_medium : ℕ
peer_speed_medium = 1

abbrev pub peer_speed_fast : ℕ
peer_speed_fast = 2

-- `RefreshSpeed`, from the statistics of the peer and of the transfer, if there is one.
unfoldable pub refresh_speed : Statistics → Option Statistics → ℕ → ℕ
refresh_speed peer none speed = speed
refresh_speed peer (some transfer) speed =
    let peer_rate = download_rate peer in
    let transfer_rate = download_rate transfer in
    if ltb_int 512 peer_rate && ltb_int (div_int transfer_rate 16) peer_rate
    then peer_speed_fast
    else if ltb_int 4096 peer_rate && ltb_int (div_int transfer_rate 64) peer_rate
    then peer_speed_medium
    else if ltb_int peer_rate (div_int transfer_rate 15) && speed == peer_speed_fast
    then peer_speed_medium
    else peer_speed_slow
