-- ===== src/Lib.antt =====
-- A verification library for the BitTorrent protocol on libp2p.
--
-- The program keeps a pool of torrents. Remote peers open connections, whose bytes the codec cuts
-- into messages; each message becomes an event of the pool, which finds the torrent of the peer and
-- passes the event to that torrent's piece handler. The handler chooses a missing piece and drives
-- it to completion in a piece buffer, which asks idle peers for one block at a time. A poll of the
-- pool polls its torrents, and these their handlers: it gives out the next request, a finished
-- piece, or an alarm about a peer that is silent. Blocks that remotes ask for are queued in the
-- handler until the disk has read them. The behaviour joins the parts: each connection has a handler
-- of its substreams, one for each request, whose events it passes to the pool; it queues reads and
-- writes at the disk manager, and gives out what the pool and the disk answer.
--
-- Files and code, with paths from the repository's root:
--   Base, Base/*          lists, maps, vectors and results: the standard library's, as the code uses it
--   Crates, Crates/*      the packages: bit_vec, bytes, byteorder, wasm_timer, rand, futures, lru_cache, each
--                         as a record of operations and laws, most with an instance in Crates/Instances
--   Hash                  src/util.rs: ShaHash
--   Wire/Message          src/proto/message.rs: PeerMessage, len, as_bytes
--   Wire/Codec            src/proto/codec.rs: PeerWireCodec, decode and encode
--   Disk/Block            src/disk/block.rs: BlockMetadata, Block, BlockMut and their conversions
--   Disk/Error            src/disk/error.rs: TorrentError
--   Disk/Files            src/disk/file.rs: TorrentFile, files_for_block
--   Disk/FileSystem       src/disk/fs.rs: the trait FileSystem
--   Disk/Transfer         src/disk/block.rs: BlockFileWrite, BlockFileRead and BlockJob, their polls
--   Disk/Finalize         src/disk/block.rs: finalize of BlockRead, BlockWrite and BlockJob
--   Disk/Message          src/disk/message.rs: the messages of the disk manager
--   Disk/Manager          src/disk/manager.rs: DiskManager, its queue and poll_files
--   Disk/Manager/Jobs     src/disk/manager.rs: the jobs that are made of the queue, finalize, poll
--   Peer/State            src/peer/mod.rs: BitTorrentPeer
--   Peer/Buffer           src/peer/piece.rs: PieceBuffer
--   Peer/Handler          src/peer/piece.rs: TorrentPieceHandler, the choice of the next piece
--   Peer/Handler/Events   src/peer/piece.rs: TorrentPieceHandler, what its peers and its poll do
--   Peer/Torrent          src/peer/torrent.rs: Torrent
--   Peer/Pool             src/peer/torrent.rs: TorrentPool, admission of torrents and peers
--   Peer/Pool/Requests    src/peer/torrent.rs: TorrentPool, the other events, and poll
--   Peer/Pool/Queries     src/peer/torrent.rs: TorrentPool::new and iterators; BitTorrentConfig
--   Connection            src/handler.rs: BitTorrentHandler, SubstreamState and the injected events
--   Connection/Events     src/handler.rs: BitTorrentHandlerIn, BitTorrentHandlerEvent and the errors
--   Connection/Advance    src/handler.rs: advance_substream, process_btt_in, process_btt_out, poll
--   Tracker               src/tracker.rs: TrackerRequest, its builder and its bencode
--   Crates/Bendy          the objects and the encoder of bendy; Crates/Bendy/Values has instances of them
--   Crates/WalkDir        the tree of files, the hasher of sha1 and floating point numbers
--   Meta                  src/torrent/mod.rs: MetaInfo and lengths; src/peer/builder.rs: TorrentConfig
--   Meta/Encode           src/torrent/mod.rs: encode of each type, sha1_hash
--   Meta/Decode           src/torrent/mod.rs: decode_bencode_object of TorrentInfo and what it holds
--   Meta/Decode/Whole     src/torrent/mod.rs: decode_bencode_object of MetaInfo
--   Meta/Create           src/torrent/builder.rs: read_file, read_dir, read_content
--   Meta/Create/Builder   src/torrent/builder.rs: TorrentBuilder, compute_piece_length, build
--   Behavior              src/behavior.rs: BitTorrent and its calls
--   Behavior/Events       src/behavior.rs: BitTorrentEvent and the results that it carries
--   Behavior/Nodes        src/behavior.rs: inject_node_event
--   Behavior/Polls        src/behavior.rs: poll
--   Behavior/Storage      the disk manager as the disk of the behaviour
-- A file below one of these holds proofs about it; the files named Tests, and those below them, hold
-- concrete runs.
--
-- A method that changes its object is a function from the object to the changed one and the result.
-- Panics are the value `panic` of `Outcome`, errors are `err`. Numbers are not bounded, and where a
-- width matters the theorem bounds them; the identifiers of substreams wrap around. Hash maps are
-- association lists in the order of their iteration, and instants and shuffles are arguments.
-- `&mut` into a map is an insertion at a key that is there. A stream, a cache of files and the
-- opening of files are interfaces, and the behaviour takes the disk manager as one.
--
-- Fuel: a loop that polls takes fuel, and its outcome is a `Run`, which says whether the fuel was used
-- up. The inner loop of a connection's poll has fuel for three steps, which is enough: a substream
-- comes closer to a wait with each step. The loops of the behaviour's poll and of the disk manager's
-- have no bound in the source, and their fuel is an argument. The loop that hashes the pieces of a
-- file has the size of the file and one step more, and the cut of bytes into chunks their number, since
-- each step takes a byte at least. No other definition needs fuel: the loops are over lists and the
-- rounds of a download are counted by the blocks of the piece.
--
-- Not modelled: sockets and the native file system, the requests to trackers over HTTP, the reading
-- and writing of the bytes of a torrent file, the digest itself, the parts of paths, wakers, logging.
pub mod Base
pub mod Crates
pub mod Hash
pub mod Wire
pub mod Disk
pub mod Peer
pub mod Connection
pub mod Meta
pub mod Behavior
pub mod Tracker
