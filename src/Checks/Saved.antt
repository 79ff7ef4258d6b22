-- ===== src/Checks/Saved.antt =====
-- transfer.go, piece_picker.go and proto/transfer.go on files of one and two pieces.
use ged2k.Prelude.{◌≡◌, refl, List, [], ◌∷◌, ok, none, replicate, arith}
use ged2k.Proto.Basic.{empty_endpoint}
use ged2k.Proto.Buffer.{make_buffer, reread}
use ged2k.Proto.BitField.{bits_to_bytes, div_ceil_int}
use ged2k.Proto.Resume.{
  AddTransferParameters, has_key, get_add_transfer, put_add_transfer, size_add_transfer,
}
use ged2k.Proto.Resume.RoundTrip.{
  DistinctKeys, EntriesFit, ParametersAreValid, empty_parameters, parameters_bytes,
  get_add_transfer-put_add_transfer,
}
use ged2k.Pieces.Downloading.{PeerStore}
use ged2k.Pieces.Picker.{PiecePicker, pick_pieces}
use ged2k.Pieces.Picker.Fills.{PickerIsValid}
use ged2k.Pieces.Picker.Pieces.{PicksPieces, pick_pieces_ok}
use ged2k.Pieces.Picker.Resume.{resume_picker, get_pieces, get_downloaded_blocks, resume_picker_ok}
use ged2k.Proto.Geometry.{PieceBlock}

abbrev fast_peers : PeerStore
fast_peers r = record {
  source_flag = 2;
  last_connected = 0;
  next_connection = 0;
  fail_count = 0;
  peer_connection = none;
  endpoint = empty_endpoint;
  speed = 2;
}

abbrev two_pieces : PiecePicker
two_pieces = record {
  blocks_in_last_piece = 3;
  downloading_pieces = [];
  pieces = record { bytes = 0x80 ∷ []; bits = 2 };
}

two_pieces-IsValid : PickerIsValid two_pieces
unfolding bits_to_bytes div_ceil_int
two_pieces-IsValid = record {
  pieces_valid = record { filled = refl; in_range = (omega arith, tt) };
  each_valid = tt;
}

pick_pieces_ok_example :
    (after : PiecePicker) × (blocks : List PieceBlock) × (pick_pieces fast_peers 5 8 two_pieces
      ≡ ok (after, blocks))
    × PicksPieces 5 two_pieces after blocks
pick_pieces_ok_example = pick_pieces_ok fast_peers 5 8 two_pieces two_pieces-IsValid

abbrev a_transfer : AddTransferParameters
a_transfer = record {
  hashes = record { hash = replicate 16 7; piece_hashes = replicate 16 1 ∷ replicate 16 2 ∷ [] };
  filename = 97 ∷ 98 ∷ [];
  filesize = 9728005;
  pieces = record { bytes = 0xc0 ∷ []; bits = 2 };
  downloaded_blocks = (1, record { bytes = 0x80 ∷ []; bits = 1 }) ∷ [];
}

a_transfer-DistinctKeys : DistinctKeys a_transfer.downloaded_blocks
unfolding DistinctKeys has_key
a_transfer-DistinctKeys = (refl, tt)

resume_picker_ok_example :
    (pp : PiecePicker) × (resume_picker a_transfer ≡ ok pp)
    × (get_pieces pp ≡ a_transfer.pieces)
    × (get_downloaded_blocks pp ≡ a_transfer.downloaded_blocks)
    × (pp.blocks_in_last_piece ≡ 0)
resume_picker_ok_example = resume_picker_ok a_transfer a_transfer-DistinctKeys

a_transfer-IsValid : ParametersAreValid a_transfer
unfolding bits_to_bytes div_ceil_int EntriesFit
a_transfer-IsValid = record {
  hashes_valid = record { hash_fits = refl; hashes_fit = (refl, (refl, tt)); few = omega arith };
  has_name = λ e. ground (arith, e);
  name_fits = omega arith;
  filesize_fits = omega arith;
  pieces_fit = (record { filled = refl; in_range = (omega arith, tt) }, omega arith);
  few = omega arith;
  entries_fit =
      (omega arith, (record { filled = refl; in_range = (omega arith, tt) }, omega arith), tt);
  distinct = a_transfer-DistinctKeys;
}

get_add_transfer-put_add_transfer_example :
    get_add_transfer empty_parameters
      (reread (put_add_transfer a_transfer (make_buffer (size_add_transfer a_transfer))))
    ≡ (
      a_transfer,
      record {
        bytes = parameters_bytes a_transfer;
        err = none;
        pos = size_add_transfer a_transfer;
      },
    )
get_add_transfer-put_add_transfer_example =
    get_add_transfer-put_add_transfer a_transfer a_transfer-IsValid
