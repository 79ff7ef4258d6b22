-- ===== src/Proto/Buffer.antt =====
-- proto/common.go: `StateBuffer`, a byte slice with a position and a sticky error.
-- `Read` and `Write` dispatch on the type of their argument; here each type has its function.
pub mod Wire
use ged2k.Prelude.{
  ℕ, zero, suc, ◌+◌, ◌-◌, ◌*◌, ◌/◌, ◌%◌, ltb, leb, ◌==◌, if◌then◌else◌, Option, none, some, List,
  [], ◌∷◌, length, set, take, drop, replicate,
}

-- The error values that the package makes. The texts of the messages are left out.
pub data Error : Type 0 where
  eof invalid_type too_many unknown_tag : Error

pub record StateBuffer : Type 0 where
  pub bytes : List ℕ
  pub err : Option Error
  pub pos : ℕ

-- encoding/binary, LittleEndian: `width` bytes, the lowest first.
unfoldable pub le_bytes : ℕ → ℕ → List ℕ
le_bytes zero v = []
le_bytes (suc width) v = (v % 256) ∷ le_bytes width (v / 256)

unfoldable pub le_value : List ℕ → ℕ
le_value [] = 0
le_value (b ∷ bs) = b + 256 * le_value bs

-- The slice expression `Data[pos : pos+n]`.
abbrev pub slice : List ℕ → ℕ → ℕ → List ℕ
slice bs pos n = take n (drop pos bs)

-- `for i, x := range v { Data[pos+i] = x }`
unfoldable pub store : List ℕ → ℕ → List ℕ → List ℕ
store bs pos [] = bs
store bs pos (x ∷ xs) = store (set bs pos x) (suc pos) xs

-- What reads from a buffer: a value, and the buffer after.
abbrev pub Reader : Type 0 → Type 0
Reader A = StateBuffer → A × StateBuffer

unfoldable pub pure : {A : Type 0} → A → Reader A
pure a sb = (a, sb)

infixl 5 ◌>>=◌ ◌>>◌
unfoldable pub ◌>>=◌ : {A B : Type 0} → Reader A → (A → Reader B) → Reader B
◌>>=◌ m f sb = let (a, rest) = m sb in f a rest

unfoldable pub ◌>>◌ : {A B : Type 0} → Reader A → Reader B → Reader B
◌>>◌ m k sb = let (a, rest) = m sb in k rest

-- The chain `sb.Write(x).Write(y)`.
infixl 3 ◌|>◌
abbrev pub ◌|>◌ : StateBuffer → (StateBuffer → StateBuffer) → StateBuffer
sb |> f = f sb

unfoldable pub fail_with : Error → StateBuffer → StateBuffer
fail_with e sb = record sb { err = some e }

-- ReadUint8, ReadUint16, ReadUint32 and ReadUint64: after an error they return 0.
unfoldable pub read_uint : ℕ → Reader ℕ
unfolding fail_with
read_uint width sb = elim sb.err [
  | some e ↦ (0, sb)
  | none ↦
      if leb (sb.pos + width) (length sb.bytes)
      then (le_value (slice sb.bytes sb.pos width), record sb { pos = sb.pos + width })
      else (0, fail_with eof sb)
]

abbrev pub read_uint8 : Reader ℕ
read_uint8 = read_uint 1

abbrev pub read_uint16 : Reader ℕ
read_uint16 = read_uint 2

abbrev pub read_uint32 : Reader ℕ
read_uint32 = read_uint 4

abbrev pub read_uint64 : Reader ℕ
read_uint64 = read_uint 8

-- `Read` of a pointer to an unsigned number: after an error the target keeps its value.
unfoldable pub read_num : ℕ → ℕ → Reader ℕ
unfolding fail_with
read_num width old sb = elim sb.err [
  | some e ↦ (old, sb)
  | none ↦
      if ltb (length sb.bytes) (width + sb.pos)
      then (old, fail_with eof sb)
      else (le_value (slice sb.bytes sb.pos width), record sb { pos = sb.pos + width })
]

-- `Read` of a byte slice. The last test of `Read` takes a size of 0 for a type it cannot read.
unfoldable pub read_slice : List ℕ → Reader (List ℕ)
unfolding fail_with
read_slice old sb = elim sb.err [
  | some e ↦ (old, sb)
  | none ↦
      if ltb (length sb.bytes) (length old + sb.pos)
      then (old, fail_with eof sb)
      else if length old == 0
      then (old, fail_with invalid_type sb)
      else (slice sb.bytes sb.pos (length old), record sb { pos = sb.pos + length old })
]

-- `if sb.err == nil { … }` around a read, with the value that stays otherwise.
unfoldable pub if_ok : {A : Type 0} → A → Reader A → Reader A
if_ok old m sb = elim sb.err [ some e ↦ (old, sb) | none ↦ m sb ]

-- A read into a local variable, assigned only if there was no error.
unfoldable pub commit : {A : Type 0} → A → Reader A → Reader A
commit old m sb = let (v, rest) = m sb in elim rest.err [ some e ↦ (old, rest) | none ↦ (v, rest) ]

-- `Read` of a value that has its own `Get`.
unfoldable pub read : {A : Type 0} → (A → Reader A) → A → Reader A
read get old sb = elim sb.err [ some e ↦ (old, sb) | none ↦ get old sb ]

-- `Read` of a value whose type the switch does not list and that has a `Size`.
unfoldable pub read_unreadable : {A : Type 0} → ℕ → A → Reader A
unfolding fail_with
read_unreadable size old sb = elim sb.err [
  | some e ↦ (old, sb)
  | none ↦
      if ltb (length sb.bytes) (size + sb.pos)
      then (old, fail_with eof sb)
      else (old, fail_with invalid_type sb)
]

-- `Write` of a byte slice.
unfoldable pub write_slice : List ℕ → StateBuffer → StateBuffer
unfolding fail_with
write_slice v sb = elim sb.err [
  | some e ↦ sb
  | none ↦
      if ltb (length sb.bytes) (sb.pos + length v)
      then fail_with eof sb
      else record sb { bytes = store sb.bytes sb.pos v; pos = sb.pos + length v }
]

-- `Write` of a number of `width` bytes.
unfoldable pub write_uint : ℕ → ℕ → StateBuffer → StateBuffer
unfolding write_slice
write_uint width v = write_slice (le_bytes width v)

-- `Write` of a value that has its own `Put`.
unfoldable pub write : (StateBuffer → StateBuffer) → StateBuffer → StateBuffer
write put sb = elim sb.err [ some e ↦ sb | none ↦ put sb ]

abbrev pub offset : StateBuffer → ℕ
offset sb = sb.pos

abbrev pub error : StateBuffer → Option Error
error sb = sb.err

-- Where the position is past the end Go gives a negative number; no operation puts it there.
abbrev pub remain : StateBuffer → ℕ
remain sb = length sb.bytes - sb.pos

-- A buffer made for writing, and the same bytes for reading.
abbrev pub make_buffer : ℕ → StateBuffer
make_buffer size = record { bytes = replicate size 0; err = none; pos = 0 }

abbrev pub reread : StateBuffer → StateBuffer
reread sb = record { bytes = sb.bytes; err = none; pos = 0 }
