-- ===== src/Lib.antt =====
-- ged2k, a client of the eDonkey network: its wire format, what it keeps of a file that it downloads,
-- and its choice of peers.
--
-- The program takes a file apart into pieces of 9728000 bytes and those into 50 blocks. A transfer asks
-- its piece picker for blocks; the picker asks the pieces that are in progress, and takes a further
-- piece when they have too few. Each peer connection requests the blocks, cuts what arrives from the
-- region of offsets still to come, and hands a block that is complete to the transfer, which keeps the
-- blocks of a piece in order and hashes them. The policy of a transfer limits and ranks its peers. All
-- packets, to peers and to servers, are written to and read from one kind of buffer.
--
-- Which file models what:
--   Prelude         shared names, list functions over the native numbers, a result that may be a panic,
--                   signed counters, ints of 64 bits, tables over all bytes, and the counting of
--                   positions
--   Region          data/region.go; Region/Difference has the regions as sets of offsets
--   Proto/Buffer    StateBuffer of proto/common.go. Read and Write have a function for each type: read,
--                   read_num, read_slice, write, write_uint and write_slice. Proto/Buffer/Wire has
--                   Reads and Writes, what a step does in the middle of a buffer, which compose
--   Proto/Basic     ED2KHash, Endpoint, IP, ByteContainer and PacketHeader of proto/common.go
--   Proto/Tag       proto/tag.go; Proto/Tag/Create has CreateTag and the accessors of numbers
--   Proto/Tags      TagCollection of proto/common.go
--   Proto/BitField  proto/bitfield.go, with its bits as a function of the position
--   Proto/Geometry  PieceBlock of proto/transfer.go and the arithmetic at the end of proto/common.go
--   Proto/Packets   UsualPacket and the packets of proto/peer.go up to HashSet
--   Proto/Parts     RequestParts32 and 64, SendingPart and CompressedPart of proto/peer.go
--   Proto/Options   MiscOptions and MiscOptions2 of proto/peer.go
--   Proto/Server    proto/server.go
--   Proto/Search    proto/search.go: the entries and packets; Build and Scan have addOperand and
--                   BuildEntries, Pack has PackRequest, Infix and Meaning the expressions they are about,
--                   Item has ToSearchItem
--   Proto/Combiner  PacketCombiner of proto/common.go
--   Proto/Resume    AddTransferParameters of proto/transfer.go
--   Peers           policy.go
--   Pieces          downloading_piece.go (Downloading), piece_storage.go (Receiving), piece_picker.go
--                   (Picker; Resume has FromResumeData) and PendingBlock of peer_connection.go (Pending)
--   Transfers       transfer.go: the loop of Transfer.Start, a step for each message
--   Stats           statistics.go, on ints of 64 bits as bit patterns (Prelude/Words). Ticks and Settled
--                   follow the averages over seconds at the same rate
--   Connections     peer_connection.go: what a connection keeps, its sending of a packet, its Close;
--                   Packets has the answer to each packet, Loop the loop of Start. Kept follows the
--                   requested blocks, Sent and Hellos what is written and read
--   Sessions        session.go: what the loop Session.Tick keeps; Tick has what a tick of the timer does,
--                   Commands and Step a step for each case of its select, Greeting the answer to a
--                   hello. Limit (with Free) is about the connections handed out, Quit about the state
--                   that ends the loop, Ends about its end
--   Servers         server_connection.go: SendPacket, the login and the loop over packets
--   Checks          the theorems, applied to concrete inputs
--
-- How the code is modelled. A struct is a record and its methods are functions that return the record
-- after. A Go panic is the outcome `panic`. A `Get` takes the value that is there before, since after an
-- error the fields not yet read keep theirs; the buffer's error is sticky, as in the source, and its
-- texts are left out. Bytes are numbers, and a theorem that needs them below 256 says so. An unsigned
-- number is reduced where the source converts it. In the statistics an int is its 64 bits; elsewhere it
-- is a natural number, and no operation modelled there makes one negative but the counters, the sizes of
-- tags and the number of bytes that a packet still has, which are integers. Peers that blocks refer to
-- are references into a store. The order in which Go gives the entries of a map is a parameter or the
-- order of a list, and the hash function of the package md4, zlib and the readers of connections are parameters.
--
-- Loops are structural recursion over the list or over the number of rounds left. PickPieces, which
-- calls itself after it has taken one more piece, runs on fuel: one more than the number of pieces, each
-- of which it can take once. The loop of the tick that hands connections to the transfers runs on fuel
-- too, with the bound Sessions.Limit.enough: it counts the free peers of the transfers, the waiting
-- transfers and the places left.
--
-- The goroutines of a transfer and of the session are step functions: a step takes one of the messages
-- that the select waits for and gives the new state and what it sends. Whether seek, write and sync
-- succeed comes with the message. The goroutine of a connection is a function that reads the packets
-- that arrive and gives what it sends; the reader, zlib and the result of a write are its parameters.
--
-- Not modelled: sockets and the accepting of connections, the saving of parameters when a transfer is
-- paused, the reading of stored blocks when a transfer starts, text forms of hashes and endpoints, and
-- log output. That a transfer's command channel is closed twice is not seen, since Stop is an output.
-- Overflow of Go's int is modelled in the statistics only.
pub mod Prelude
pub mod Region
pub mod Proto
pub mod Peers
pub mod Pieces
pub mod Transfers
pub mod Stats
pub mod Connections
pub mod Sessions
pub mod Servers
pub mod Checks
