-- ===== src/Checks/Connections.antt =====
-- peer_connection.go: a block that comes, one that is aborted when the connection breaks, and a packet
-- that one side sends and the other reads.
use ged2k.Prelude.{
  ℕ, ◌+◌, ◌*◌, ◌≡◌, refl, true, false, some, List, [], ◌∷◌, ◌++◌, length, replicate, All, ok, arith,
}
use ged2k.Prelude.Int.{pos}
use ged2k.Region.{make, region_sub, sub_segments, sub, is_empty}
use ged2k.Proto.Buffer.{
  Error, read, read_uint, le_value, read_slice, ◌>>=◌, pure, fail_with, write_uint, le_bytes,
}
use ged2k.Proto.Basic.{zero_hash, read_header, get_hash}
use ged2k.Proto.Geometry.{PieceBlock, from_offset, in_block_offset}
use ged2k.Proto.Parts.{size_sending_part, get_sending_part, get_short_ends}
use ged2k.Proto.Combiner.{
  Combined, read_packet, read_after_header, overwrite, read_sized, bytes_to_read, read_contents,
  unpack, make_data, grow,
}
use ged2k.Pieces.Pending.{
  PendingBlock, receive, read_into, keep_received, put_at, remove_pending_block,
}
use ged2k.Connections.{
  Network, Connection, counted_received, block_out, aborted, unregistered, read_failed, send_packet,
  sent, counted_sent, bad_packet,
}
use ged2k.Connections.Packets.{
  empty_answer, on_packet, kind_of, read_or_stop, receive_part, find_request, same_block, settle,
  after_receive, ready_if_none,
}
use ged2k.Connections.Loop.{
  Run, run, Event, turn, ask, after_read, put_first, continue_with, unregister, abort_all,
  packet_comes, asked,
}
use ged2k.Connections.Kept.{passed_on, IsComplete}
use ged2k.Connections.Kept.Runs.{asked_in, still, times, run_keeps, run-IsComplete}
use ged2k.Connections.Sent.{frame, header_for, read_packet-send_packet}
use ged2k.Connections.Hellos.{after_read_hello}
use ged2k.Proto.Combiner.Frames.{Delivers}
use ged2k.Proto.Buffer.Wire.{Writes-write_uint}
use ged2k.Checks.Frames.{from_bytes}

-- A socket is the bytes that will come; what is written to it is dropped.
abbrev wire : Network (List ℕ) (List ℕ)
wire = record {
  io = from_bytes;
  write = λ bytes s. (true, s);
  close = λ s. s;
  inflate = λ bytes. some bytes;
  inflated = from_bytes;
}

abbrev block_at : ℕ → List ℕ → PendingBlock
block_at i contents = record {
  block = record { piece_index = 0; block_index = i };
  contents = contents;
  region = record { segments = make (i * 194560) (i * 194560 + 1) ∷ [] };
}

abbrev came : PendingBlock
came = record (block_at 0 (7 ∷ [])) { region = record { segments = [] } }

-- The announcement of the first byte of the file, and that byte.
abbrev part_bytes : List ℕ
part_bytes = replicate 16 0 ++ (0 ∷ 0 ∷ 0 ∷ 0 ∷ 1 ∷ 0 ∷ 0 ∷ 0 ∷ [])

abbrev wire_bytes : List ℕ
wire_bytes = 0xe3 ∷ 25 ∷ 0 ∷ 0 ∷ 0 ∷ 0x46 ∷ (part_bytes ++ (7 ∷ []))

abbrev a_connection : Connection (List ℕ)
a_connection = record {
  transfer = some (record { hash = zero_hash; size = 1 });
  connected = true;
  disconnect_later = false;
  dialed = true;
  requested = block_at 0 (0 ∷ []) ∷ [];
  buffer = [];
  rest = wire_bytes;
}

abbrev broken : Run (List ℕ)
broken = record {
  connection = record a_connection {
    requested = block_at 1 (0 ∷ []) ∷ [];
    buffer = part_bytes;
    rest = [];
  };
  outputs =
      counted_received 29
      ∷ counted_received 1
      ∷ block_out came
      ∷ aborted (block_at 1 (0 ∷ []))
      ∷ unregistered read_failed
      ∷ [];
  running = false;
  later = [];
}

abbrev events : List Event
events = asked (block_at 1 (0 ∷ []) ∷ []) ∷ packet_comes ∷ packet_comes ∷ []

runs : run wire empty_answer events a_connection ≡ ok broken
unfolding run turn read_packet ask read_after_header read_header overwrite read_sized bytes_to_read
    after_read size_sending_part read_contents unpack on_packet kind_of read_or_stop read
    get_sending_part get_short_ends read_uint le_value read_slice get_hash ◌>>=◌ pure receive_part
    find_request same_block from_offset receive read_into keep_received put_at region_sub
    sub_segments sub is_empty settle after_receive remove_pending_block ready_if_none put_first
    continue_with unregister abort_all make_data grow in_block_offset fail_with
runs = refl

abbrev second_block : PieceBlock
second_block = record { piece_index = 0; block_index = 1 }

run_keeps_example :
    times second_block a_connection.requested + times second_block (asked_in events)
    ≡ times second_block (passed_on broken.outputs)
      + times second_block (still broken)
      + times second_block (asked_in broken.later)
run_keeps_example = run_keeps wire empty_answer events a_connection broken second_block runs

run-IsComplete_example : All IsComplete broken.outputs
run-IsComplete_example = run-IsComplete wire empty_answer events a_connection broken runs

read_packet-send_packet_example :
    (send_packet wire 0xe3 0x58 (pos 4) (write_uint 4 0x0a) a_connection
      ≡ ok (
        record a_connection { rest = wire_bytes },
        sent (frame 0xe3 0x58 (le_bytes 4 0x0a))
            ∷ counted_sent (length (frame 0xe3 0x58 (le_bytes 4 0x0a)))
            ∷ [],
      ))
    × ((after : List ℕ) × (read_packet from_bytes [] (frame 0xe3 0x58 (le_bytes 4 0x0a))
          ≡ ok (record {
            header = header_for 0xe3 0x58 (le_bytes 4 0x0a);
            contents = le_bytes 4 0x0a;
            failed = false;
            buffer = after;
            rest = [];
          })))
unfolding le_bytes
read_packet-send_packet_example =
    read_packet-send_packet wire from_bytes a_connection 0xe3 0x58 (le_bytes 4 0x0a) []
      (frame 0xe3 0x58 (le_bytes 4 0x0a)) (le_bytes 4 0x0a) [] (Writes-write_uint 4 0x0a)
      (omega arith) refl
      (record {
        no_sending = λ e. omega arith;
        no_sending_i64 = λ e. omega arith;
        no_compressed = λ e. omega arith;
        no_compressed_i64 = λ e. omega arith;
      })
      (λ e. omega arith) (unfold Delivers in (refl, refl)) (unfold Delivers in (refl, refl))

abbrev hello_came : Combined (List ℕ)
hello_came = record {
  header = record { protocol = 0xe3; size = 2; packet = 0x01 };
  contents = 0x10 ∷ [];
  failed = false;
  buffer = [];
  rest = [];
}

after_read_hello_example :
    (e : Error) × (after_read wire empty_answer a_connection hello_came
      ≡ ok (record {
        connection = record a_connection { buffer = []; rest = [] };
        outputs = counted_received 6 ∷ [];
        error = some (bad_packet e);
      }))
after_read_hello_example = after_read_hello wire empty_answer a_connection hello_came refl refl
