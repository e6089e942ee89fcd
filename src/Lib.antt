-- ===== src/Lib.antt =====
-- ipfs-content: reading, writing and storing content-addressed data.
--
-- The program has a blockstore layer (blockstore/), which keeps blocks by their CID, a CAR
-- layer (internal/carv2/, car/), which reads and writes streams of blocks, builds a summary of
-- a file system and reads a summary back from the nodes of a CAR, and small packages around
-- them (dagnode/, format/ and others). A CAR reader loads its blocks into a store; the stores
-- bound the memory that the loaded blocks take.
--
-- Which file is about which part:
--   * Prelude and below: lists, tests, results and association maps over the native numbers.
--   * Blockstore: the block that the stores keep. Blockstore/Lru: LRUBlockstore of
--     blockstore/car_blockstore.go. Its doubly-linked list stands on a heap of nodes whose
--     pointers are addresses or nil; each method makes the writes of the code in the order of
--     the code, and a read through nil is an error of the model. Chain, Ends, Moves, Removes,
--     Loop and Repr under it say what the writes do to the list that the pointers spell, and
--     Represents, Refinement, Queries and Runs compare the methods with a plain list of blocks
--     in the order of their last use.
--   * Blockstore/Indexed: IndexedBlockstore of blockstore/indexed_blockstore.go, which keeps an
--     LRUBlockstore and reads an evicted block again through an index of its CAR file.
--   * Blockstore/Level: LevelBlockStore of blockstore/level_blockstore.go, which keeps a level
--     for each block and a cohort of blocks for each level, and drops the lowest cohort when
--     there are too many. Heights, Levels, Rotation and Counting hold what is shown of it.
--   * Carv2/Section: internal/carv2/util/util.go (LdWrite, LdSize, LdRead, LdReadSize,
--     ReadNode, WriteBlock). Carv2/Header, Carv2/Reader and Carv2/Load: internal/carv2/car.go
--     (ReadHeader, WriteHeader, HeaderSize, Matches, NewCarReader, Next, LoadCar and its two
--     loops). Framing, Header/Matching, Loading, Stream and Ends hold what is shown of them.
--   * Car/Summary: TreeSummary, TreeEntry and their comparison, of car/car_dir_builder.go, and
--     the lists of paths of car/car_reconstructor.go. A pointer to an entry is its key in
--     TreeEntries. Car/Collect: collectAllBlocks and collectBlockMetadata, two breadth-first
--     walks over one loop. Car/Reconstruct: reconstructTree and walkDAG. Car/Prune:
--     pruneEmptyDirectories and isDirectoryEmpty. Car/Build: createUnixFSBlocks,
--     createDirectoryBlock and the walk of BuildSummary, whose other parts are in
--     Car/Build/Whole; Root and Rooted follow the entry of ROOT through it. Car/Write: WriteCAR
--     and writeBlockToCAR, and CalculateCARSize of car/car.go. Blocks, Equality, Walk, Ends,
--     Links, Exact, Shape, Sound, Rebuilt, Total, Empty and Size hold what is shown of these
--     parts.
--   * Dagnode: dagnode/node.go.
--   * Format: format/format.go, with Format/Text on its text form.
--   * Validation: validation/components.go. Paths: paths/paths.go, with ToV1 and NormalizeCid
--     of encoding/encoding.go.
--
-- Integers: uint64 sizes wrap at 2 ^ 64, written out where the code adds or subtracts.
--
-- Loops and fuel: the eviction loop of LRUBlockstore.Put runs on the number of stored blocks
-- and one more, and each turn removes a block. The loops of LoadCar run on the length of the
-- stream and one more, and each section that is read takes a byte at least. The breadth-first
-- walks run on any number of rounds: a finite DAG needs one for each link, and two more. A call
-- of walkDAG or of isDirectoryEmpty takes a unit from its caller: walkDAG goes as deep as there
-- are nodes, and isDirectoryEmpty as deep as the directories are nested.
--
-- Parameters: the varint codec, the CID codec and the CBOR codec of the header, the check of a
-- block against its CID, the writer and the store that a CAR is loaded into. Each is a record
-- of functions with the laws that the code relies on. The laws of CIDs, which go-cid keeps for
-- CIDs other than cid.Undef, are records of their own, which only the theorems that need them
-- ask for. Parameters too are the insertion index of go-car, its block reader, the seekable
-- file and NewBlockWithCid, the inner store and the link decoder of LevelBlockStore, and the
-- CIDs and paths of go-cid and boxo. For car/ and dagnode/ they are the DAG service, the blockstores, the decoders of blocks and of UnixFS data, the bytes of a
-- CID, the file system (the calls that fs.WalkDir makes, and Open), and the generator of nodes
-- with the store that it writes to; a Get of that store does not change it.
--
-- Not modelled: locks and goroutines (each method runs alone to its end), channels (AllKeysChan
-- gives its keys as a list), contexts beyond the question whether they have ended, logging,
-- GetAncestors of LevelBlockStore, the contexts of car/, which end a walk early, ReadCAR, the
-- options of the directory builder's constructor, the order in which a map is gone through
-- (that of its list) and the panics of a nil receiver, the archive drivers, which adapt
-- extractor libraries, and the readers of internal/io.
mod Prelude
pub mod Format
pub mod Blockstore
pub mod Carv2
pub mod Validation
pub mod Paths
pub mod Car
pub mod Dagnode
