-- ===== src/Checks/Transfers.antt =====
-- transfer.go: the last block of a file of one block comes, with the right hash and with a wrong one, and
-- a peer comes after an error of the file.
use ged2k.Prelude.{
  ℕ, ◌≡◌, refl, List, [], ◌∷◌, ◌++◌, length, true, false, ok, panic, none, some, zero, suc, arith,
}
use ged2k.Prelude.Int.{pos}
use ged2k.Proto.Basic.{zero_hash}
use ged2k.Proto.BitField.{
  get_bit, set_bit, update_byte, count, count_bytes, count_last, count_rest, clone_bit_field,
  BitField, bits_to_bytes, div_ceil_int,
}
use ged2k.Proto.BitField.Bits.{BitFieldIsValid}
use ged2k.Pieces.Downloading.{
  PeerStore, DownloadingPiece, finish_block, is_block_requested, update_block, num_have, num_blocks,
}
use ged2k.Pieces.Pending.{PendingBlock}
use ged2k.Pieces.Receiving.{
  ReceivingPiece, insert_block, insert_found, skip_blocks, insert_at, hash_blocks,
}
use ged2k.Pieces.Picker.{
  PiecePicker, finish_in, change_piece, blocks_in_piece, set_have, position, check_have, swap_out,
  is_finished,
}
use ged2k.Pieces.Picker.Resume.{get_pieces, get_downloaded_blocks, save_each}
use ged2k.Proto.Resume.{assign_key}
use ged2k.Proto.Packets.{Md4}
use ged2k.Transfers.{
  peer_ready, close_peer, serve_peer, receive_block, find_incoming, after_insert, put_incoming,
  store_block, end_piece, hash_matches, mark_piece, finish_marked, finished_output, save,
  delete_incoming, Setup, TransferState, block_came, Output, resume_data, step,
}
use ged2k.Proto.Basic.{empty_endpoint}
use ged2k.Transfers.Failed.{Rests, step-Rests}
use ged2k.Transfers.Removal.{Distinct}
use ged2k.Transfers.Ends.{NoneFinished, step-NoneFinished}
use ged2k.Transfers.Mismatch.{step_mismatch}

-- A hash that keeps all bytes.
abbrev keep_all : Md4 (List ℕ)
keep_all = record { new = []; write = λ h bs. h ++ bs; sum = λ h. h }

abbrev a_setup : Setup
a_setup = record {
  hash = zero_hash;
  size = 1;
  filename = 97 ∷ [];
  hashes = record { hash = zero_hash; piece_hashes = [] };
}

abbrev one_bit : BitField
one_bit = record { bytes = 0x80 ∷ []; bits = 1 }

abbrev asked_piece : DownloadingPiece
asked_piece = record {
  piece_index = 0;
  blocks = record { downloaders_count = pos 1; last_downloader = some 8 } ∷ [];
  blocks_requested = one_bit;
  blocks_finished = record { bytes = 0 ∷ []; bits = 1 };
}

abbrev done_piece : DownloadingPiece
done_piece = record {
  piece_index = 0;
  blocks = record { downloaders_count = pos 0; last_downloader = none } ∷ [];
  blocks_requested = one_bit;
  blocks_finished = one_bit;
}

abbrev picker_with : List DownloadingPiece → PiecePicker
picker_with dps = record { blocks_in_last_piece = 1; downloading_pieces = dps; pieces = one_bit }

abbrev waiting_for : ℕ → TransferState (List ℕ)
waiting_for hash = record {
  picker = picker_with (asked_piece ∷ []);
  incoming = (0, record { hash = []; blocks = []; hash_block_index = 0 }) ∷ [];
  hash_set = some (record { hash = zero_hash; piece_hashes = (hash ∷ []) ∷ [] });
  failed = false;
  execute = true;
}

abbrev the_block : PendingBlock
the_block = record {
  block = record { piece_index = 0; block_index = 0 };
  contents = 5 ∷ [];
  region = record { segments = [] };
}

abbrev saved_with : List (ℕ × BitField) → Output
saved_with blocks = resume_data (record {
  hashes = a_setup.hashes;
  filename = a_setup.filename;
  filesize = 1;
  pieces = one_bit;
  downloaded_blocks = blocks;
})

abbrev when_done : TransferState (List ℕ)
when_done = record (waiting_for 5) { picker = picker_with []; incoming = [] }

abbrev two_saves : List Output
two_saves = saved_with ((0, one_bit) ∷ []) ∷ saved_with [] ∷ []

came_right :
    step keep_all a_setup (waiting_for 5) (block_came the_block true) ≡ ok (when_done, two_saves)
unfolding step receive_block find_incoming after_insert insert_block insert_found skip_blocks
    insert_at hash_blocks put_incoming store_block finish_in change_piece finish_block
    is_block_requested get_bit set_bit update_byte update_block blocks_in_piece end_piece
    hash_matches mark_piece finish_marked finished_output set_have position check_have swap_out
    num_have num_blocks count is_finished save get_pieces get_downloaded_blocks save_each assign_key
    clone_bit_field delete_incoming count_bytes count_last count_rest
came_right = refl

one_piece-Distinct : Distinct (asked_piece ∷ [])
unfolding Distinct
one_piece-Distinct zero zero x y hx hy e = refl
one_piece-Distinct zero (suc k) x y hx hy e = absurd (ground (arith, hy))
one_piece-Distinct (suc j) k x y hx hy e = absurd (ground (arith, hx))

step-NoneFinished_example : NoneFinished two_saves
step-NoneFinished_example =
    step-NoneFinished keep_all a_setup (waiting_for 5) when_done (block_came the_block true)
      two_saves one_piece-Distinct came_right

abbrev received_piece : ReceivingPiece (List ℕ)
received_piece = record { hash = 5 ∷ []; blocks = the_block ∷ []; hash_block_index = 1 }

is_known :
    find_incoming 0 (waiting_for 6).incoming
    ≡ some (record { hash = []; blocks = []; hash_block_index = 0 })
unfolding find_incoming
is_known = refl

is_new :
    insert_block keep_all.write (record { hash = []; blocks = []; hash_block_index = 0 }) the_block
    ≡ (received_piece, true)
unfolding insert_block insert_found skip_blocks insert_at hash_blocks
is_new = refl

is_stored : finish_in (waiting_for 6).picker the_block.block ≡ ok (picker_with (done_piece ∷ []))
unfolding finish_in change_piece finish_block is_block_requested get_bit set_bit update_byte
    update_block
is_stored = refl

is_last : length received_piece.blocks ≡ blocks_in_piece (picker_with (done_piece ∷ [])) 0
unfolding blocks_in_piece
is_last = refl

is_wrong : hash_matches keep_all a_setup (waiting_for 6).hash_set received_piece 0 ≡ ok false
unfolding hash_matches
is_wrong = refl

one_bit-IsValid : BitFieldIsValid one_bit
unfolding bits_to_bytes div_ceil_int
one_bit-IsValid = record { filled = refl; in_range = (omega arith, tt) }

is_there : position 0 (done_piece ∷ []) ≡ some 0
unfolding position
is_there = refl

step_mismatch_example : step keep_all a_setup (waiting_for 6) (block_came the_block true) ≡ panic
step_mismatch_example =
    step_mismatch keep_all a_setup (waiting_for 6) the_block
      (record { hash = []; blocks = []; hash_block_index = 0 }) received_piece
      (picker_with (done_piece ∷ [])) 0 is_known is_new is_stored is_last is_wrong one_bit-IsValid
      (omega arith) is_there

abbrev some_peers : PeerStore
some_peers r = record {
  source_flag = 2;
  last_connected = 0;
  next_connection = 0;
  fail_count = 0;
  peer_connection = none;
  endpoint = empty_endpoint;
  speed = 0;
}

abbrev failed_state : TransferState (List ℕ)
failed_state = record (waiting_for 5) { failed = true }

is_closed :
    step keep_all a_setup failed_state (peer_ready some_peers 8)
    ≡ ok (failed_state, close_peer 8 ∷ [])
unfolding step serve_peer
is_closed = refl

step-Rests_example : Rests (failed_state, close_peer 8 ∷ [])
step-Rests_example =
    step-Rests keep_all a_setup failed_state (peer_ready some_peers 8)
      (failed_state, close_peer 8 ∷ []) refl is_closed
