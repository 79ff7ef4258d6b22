-- ===== src/Checks/Frames.antt =====
-- proto/common.go: `PacketCombiner.Read` on a reader that holds its bytes.
use ged2k.Prelude.{
  ℕ, ◌≡◌, refl, List, [], ◌∷◌, length, take, drop, ltb, if◌then◌else◌, none, false, ok, panic,
  arith,
}
use ged2k.Proto.Buffer.{le_value}
use ged2k.Proto.Basic.{PacketHeader, read_header}
use ged2k.Proto.Combiner.{Io, filled, short, read_packet}
use ged2k.Proto.Combiner.Frames.{IsPlain, Delivers, read_packet_empty, read_packet_ok}

abbrev pub from_bytes : Io (List ℕ)
from_bytes = record {
  read_full = λ n s. if ltb (length s) n then short s [] else filled (take n s) (drop n s);
  unzip = λ bs. none;
}

-- The bytes of a packet of type 0x14 whose size is `n`.
abbrev head_of : ℕ → List ℕ
head_of n = 0xe3 ∷ n ∷ 0 ∷ 0 ∷ 0 ∷ 0x14 ∷ []

abbrev header_of : ℕ → PacketHeader
header_of n = record { protocol = 0xe3; size = n; packet = 0x14 }

header_of-IsPlain : (n : ℕ) → IsPlain (header_of n)
header_of-IsPlain n = record {
  no_sending = λ e. omega arith;
  no_sending_i64 = λ e. omega arith;
  no_compressed = λ e. omega arith;
  no_compressed_i64 = λ e. omega arith;
}

empty_head : read_header (head_of 0) ≡ ok (header_of 0)
unfolding read_header le_value
empty_head = refl

three_head : read_header (head_of 3) ≡ ok (header_of 3)
unfolding read_header le_value
three_head = refl

read_packet_empty_example : read_packet from_bytes [] (head_of 0) ≡ panic
read_packet_empty_example =
    read_packet_empty from_bytes [] (head_of 0) (head_of 0) [] (header_of 0)
      (unfold Delivers in (refl, refl)) empty_head (header_of-IsPlain 0) refl

abbrev three_bytes : List ℕ
three_bytes = 0xe3 ∷ 3 ∷ 0 ∷ 0 ∷ 0 ∷ 0x14 ∷ 7 ∷ 8 ∷ []

read_packet_ok_example :
    (after : List ℕ) × (read_packet from_bytes [] three_bytes
      ≡ ok (record {
        header = header_of 3;
        contents = 7 ∷ 8 ∷ [];
        failed = false;
        buffer = after;
        rest = [];
      }))
read_packet_ok_example =
    read_packet_ok from_bytes [] (head_of 3) (7 ∷ 8 ∷ []) three_bytes (7 ∷ 8 ∷ []) [] (header_of 3)
      2 (unfold Delivers in (refl, refl)) three_head (header_of-IsPlain 3) (λ e. omega arith) refl
      (omega arith) (unfold Delivers in (refl, refl))
