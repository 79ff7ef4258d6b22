-- ===== src/Checks/Peers.antt =====
-- policy.go, piece_picker.go and statistics.go on small states.
use ged2k.Prelude.{ℕ, ◌≤◌, ◌≡◌, refl, List, [], ◌∷◌, length, none, some, Bool, true, ok, arith}
use ged2k.Proto.BitField.{bits_to_bytes, div_ceil_int}
use ged2k.Peers.{Peer, Policy, add_peer, find_peer, same_endpoint}
use ged2k.Peers.Limits.{add_peer_ok}
use ged2k.Pieces.Picker.{PiecePicker, choose_next_piece}
use ged2k.Pieces.Picker.Next.{Chosen, choose_next_piece_ok}

abbrev at_port : ℕ → ℕ → Peer
at_port port fails = record {
  source_flag = 2;
  last_connected = 0;
  next_connection = 0;
  fail_count = fails;
  peer_connection = none;
  endpoint = record { ip = 9; port = port };
  speed = 0;
}

-- The second peer has failed too often.
abbrev full : Policy
full = record { peers = at_port 1 0 ∷ at_port 2 6 ∷ []; max_peers = 2 }

as_listed : List Peer → List Peer
as_listed ps = ps

add_peer_ok_example :
    (after : Policy) × (added : Bool) × (add_peer as_listed full (at_port 3 0) ≡ ok (after, added))
    × (after.max_peers ≡ 2)
    × (length after.peers ≤ 2)
    × (added ≡ true → find_peer (at_port 3 0).endpoint after.peers ≡ some (at_port 3 0))
unfolding as_listed find_peer same_endpoint
add_peer_ok_example =
    add_peer_ok as_listed full (at_port 3 0) ((at_port 1 0, refl), ((at_port 2 6, refl), tt))
      (omega arith)

abbrev three_pieces : PiecePicker
three_pieces = record {
  blocks_in_last_piece = 7;
  downloading_pieces = [];
  pieces = record { bytes = 0xc0 ∷ []; bits = 3 };
}

choose_next_piece_ok_example : Chosen three_pieces 0 (choose_next_piece three_pieces)
unfolding bits_to_bytes div_ceil_int
choose_next_piece_ok_example =
    choose_next_piece_ok three_pieces (record { filled = refl; in_range = (omega arith, tt) })
