-- ===== src/Proto/Server.antt =====
-- proto/server.go: the packets of a server.
use ged2k.Prelude.{
  ℕ, zero, suc, ◌+◌, ◌*◌, ◌%◌, ◌^◌, ◌≡◌, refl, ap, leb, if◌then◌else◌, none, some, List, [], ◌∷◌,
  ◌++◌, ◌<◌, length, Outcome, ok, panic, arith,
}
use ged2k.Proto.Buffer.{
  StateBuffer, Reader, pure, ◌>>=◌, ◌|>◌, read, read_num, read_uint8, if_ok, write, write_uint,
  remain, make_buffer, reread, le_bytes,
}
use ged2k.Proto.Buffer.Wire.{
  Reads, Writes, Reads->>=, Reads-map, Reads-read_num, Reads-Writes, Writes-write_uint, Writes-then,
}
use ged2k.Proto.Basic.{
  Ed2kHash, get_hash, put_hash, size_hash, Endpoint, empty_endpoint, get_endpoint, size_endpoint,
}

pub record FoundFileSources : Type 0 where
  pub hash : Ed2kHash
  pub sources : List Endpoint

-- The loop of `Get`: it appends, and stops at an error.
unfoldable pub get_sources : ℕ → List Endpoint → Reader (List Endpoint)
get_sources zero sources = pure sources
get_sources (suc n) sources = read get_endpoint empty_endpoint >>= λ ep.
    if_ok (sources ++ (ep ∷ [])) (get_sources n (sources ++ (ep ∷ [])))

unfoldable pub get_found_file_sources : FoundFileSources → Reader FoundFileSources
get_found_file_sources fs = do
  hash ← read get_hash fs.hash
  sz ← read_uint8
  sources ← if_ok fs.sources (get_sources sz fs.sources)
  pure (record { hash = hash; sources = sources })

-- `DataSize` panics on a slice of endpoints, which `Write` comes to unless there was an error.
unfoldable pub write_sources : List Endpoint → StateBuffer → Outcome StateBuffer
write_sources sources sb = elim sb.err [ some e ↦ ok sb | none ↦ panic ]

unfoldable pub put_found_file_sources : FoundFileSources → StateBuffer → Outcome StateBuffer
unfolding write_sources
put_found_file_sources fs sb =
    write_sources fs.sources
      (sb |> write (put_hash fs.hash) |> write_uint 1 (length fs.sources % 2 ^ 8))

unfoldable pub size_found_file_sources : FoundFileSources → ℕ
size_found_file_sources fs = 1 + size_hash + length fs.sources * size_endpoint

pub record IdChange : Type 0 where
  pub client_id : ℕ
  pub tcp_flags : ℕ
  pub aux_port : ℕ

-- `if sb.err == nil && sb.Remain() >= 4 { … }`
unfoldable pub if_more : {A : Type 0} → A → Reader A → Reader A
if_more old m = if_ok old (λ sb. if leb 4 (remain sb) then m sb else (old, sb))

unfoldable pub get_aux_port : IdChange → Reader IdChange
get_aux_port i = do aux_port ← read_num 4 i.aux_port; pure (record i { aux_port = aux_port })

unfoldable pub get_tcp_flags : IdChange → Reader IdChange
unfolding get_aux_port
get_tcp_flags i = do
  tcp_flags ← read_num 4 i.tcp_flags
  if_more (record i { tcp_flags = tcp_flags }) (get_aux_port (record i { tcp_flags = tcp_flags }))

unfoldable pub get_id_change : IdChange → Reader IdChange
unfolding get_tcp_flags
get_id_change i = do
  client_id ← read_num 4 i.client_id
  if_more (record i { client_id = client_id }) (get_tcp_flags (record i { client_id = client_id }))

unfoldable pub put_id_change : IdChange → StateBuffer → StateBuffer
put_id_change i sb =
    sb |> write_uint 4 i.client_id |> write_uint 4 i.tcp_flags |> write_uint 4 i.aux_port

abbrev pub size_id_change : ℕ
size_id_change = 4 + 4 + 4

pub record Status : Type 0 where
  pub users_count : ℕ
  pub files_count : ℕ

unfoldable pub get_status : Status → Reader Status
get_status s = do
  users_count ← read_num 4 s.users_count
  files_count ← read_num 4 s.files_count
  pure (record { users_count = users_count; files_count = files_count })

-- The number of users is written twice.
unfoldable pub put_status : Status → StateBuffer → StateBuffer
put_status s sb = sb |> write_uint 4 s.users_count |> write_uint 4 s.users_count

abbrev pub size_status : ℕ
size_status = 4 + 4

-- GetServerList has no fields.
unfoldable pub get_server_list : StateBuffer → StateBuffer
get_server_list sb = sb

unfoldable pub put_server_list : StateBuffer → StateBuffer
put_server_list sb = sb

abbrev pub size_server_list : ℕ
size_server_list = 0

status_bytes : Status → List ℕ
status_bytes s = le_bytes 4 s.users_count ++ le_bytes 4 s.users_count

Reads-get_status :
    (old s : Status)
    → s.users_count < 2 ^ 32
    → Reads
        (get_status old)
        (status_bytes s)
        (record { users_count = s.users_count; files_count = s.users_count })
unfolding get_status status_bytes
Reads-get_status old s h =
    Reads->>= _ _ (Reads-read_num 4 old.users_count s.users_count (omega arith))
      (Reads-map _ (Reads-read_num 4 old.files_count s.users_count (omega arith)))

Writes-put_status : (s : Status) → Writes (put_status s) (status_bytes s)
unfolding put_status status_bytes
Writes-put_status s =
    Writes-then (Writes-write_uint 4 s.users_count) (Writes-write_uint 4 s.users_count)

length-status_bytes : (s : Status) → length (status_bytes s) ≡ size_status
unfolding status_bytes le_bytes
length-status_bytes s = refl

-- A status whose number of users fits 32 bits, once written, reads back with the number of users in
-- the place of the number of files.
pub get_status-put_status :
    (old s : Status)
    → s.users_count < 2 ^ 32
    → (get_status old (reread (put_status s (make_buffer size_status)))).0
      ≡ record { users_count = s.users_count; files_count = s.users_count }
get_status-put_status old s h =
    ap (λ r. r.0)
      (rw (length-status_bytes s) at
        (Reads-Writes (Writes-put_status s) (Reads-get_status old s h)))
