-- ===== src/Lib.antt =====
-- A sharded blockchain and its dashboard: a model of the Go code, with theorems about it.
--
-- The program. A node keeps one shard's chain (chain/blockchain.go): a pool of transactions
-- (core/txpool.go), a trie of account states, and blocks in a bolt database (storage/storage.go). An
-- account belongs to a shard by a table or by the end of its address (utils/utils_partition.go); a
-- transfer to another shard is credited to a virtual account of this one. The dashboard (main.go)
-- reads the databases of the nodes and serves views of the blocks.
--
-- The files.
--   Base: lists, maps, integers and text over the native numbers, Space `strings.TrimSpace`, and
--     `Outcome`: a Go call returns or panics.
--   Core: the data types of core/, utils/utils_address.go and params/static_config.go, and `Deduct`
--     and `Deposit` of core/account.go.
--   Pool: core/txpool.go. Each method is one step on the pool, since it runs under the pool's lock.
--   Address: utils/utils_partition.go.
--   Backend: what the chain takes from other packages, as a record of operations with their
--     documented laws: gob, SHA-256, the state trie and its database, the bolt database.
--     Backend/Sample is an instance of it, with its laws in Backend/Sample/Laws.
--   Codec: the encoders, decoders and hashes of core/, and `NewTransaction`.
--   Storage: storage/storage.go. A block fits into the database where it carries its header, its hash
--     has 1 to 32768 bytes, and the block, the header and the hash take less than 2^31 - 1 bytes each:
--     these are the limits of bolt on keys and values.
--   Chain: chain/blockchain.go. Partition is the partition map; Status is `GetUpdateStatusTrie`;
--     Ledger is the specification of it, Refines and Commit the refinement, Audit what follows for
--     the money of the shard; Blocks has `GenerateBlock`, `AddBlock`, `NewBlockChain` and the others
--     about blocks; Accounts has `AddAccounts`, `AddAccount` and `FetchAccounts`. Runs is the life of a node as a relation: a new
--     chain, submissions, blocks mined and received, restarts; Runs/Valid is what always holds of it,
--     Runs/Queries what the queries of a stopped node find.
--   Query: query/query_block.go and query/query_accountstate.go, over a disk that maps a file's name
--     to a database.
--   LevelDb: `readVarString`, `parseBatch` and `parseLevelDBLog` of main.go, on the bytes of a file;
--     Batches has a writer of batches, Batches/Blocks and Batches/Cut logs of any number of
--     blocks with batches cut into records.
--   Dashboard: the store of main.go. The module itself has the views of one shard, from
--     `loadShardBlocksFromQuery` to the loops of `Snapshot`; Sorted and Ordered are their order by
--     height, and by height and hash; Newest is what is loaded, Genesis the
--     earliest time, Names `parseDatabaseName`. Choose picks a database for each shard, Store has
--     `chainStore` and its queries, Transactions the views of transactions, Users the user count,
--     Flat `parseShardDatabase` and `extractTimestamp`. Go goes through a map in no fixed order:
--     Base/Maps is a map as a quotient of lists, Store/AnyOrder and Flat/Frequent are about the
--     code that goes through one.
--   Submission: `appendTransactionCSV` and `ensureTransactionCSV` of main.go; Csv is what they use of
--     Go's encoding/csv, Csv/Records and Csv/Whole are its round trip, Rows the table that Table shows the
--     file to be, Reading what a reader of the file finds.
--   Server: the HTTP handlers of `main` in main.go, as functions to a response, and `serverAddr`; Writes
--     is about the CSV file under them.
--   Probe: cmd/probe/main.go. Same compares its log reader with the one of LevelDb; Search is its search
--     for blocks, and Search/Samples what that shows; Listing is `main` and `debugKnownOffset`.
--
-- Conventions. Go names are in snake case: `GetUpdateStatusTrie` is `get_update_status_trie`; the
-- chain's `AddBlock` is `chain_add_block`, the storage's is `add_block`. Strings and byte slices are
-- lists of bytes, `*big.Int` an integer, `uint64` a natural number with its wrap-around written out
-- where the code adds. Time is in nanoseconds since the zero time, and what the clock shows is an
-- argument. A pointer that the code tests or that may be nil is an `Option`. The elements of a slice
-- of transactions are not nil. `strings.ToLower` is the one of ASCII, since it is called on hashes, and
-- no other letter is lowered to a digit of one. Printing is left out. The loops are recursions on
-- lists, but those of `parseLevelDBLog` and `inspectFlatDatabase` run on fuel: one more than the file's bytes, which is enough since a record takes seven bytes at least, and what
-- `inspectFlatDatabase` looks for six. `parseShardDatabase` runs on fuel that is an argument; one more
-- than the file's bytes is enough where gob reads past the name that the search finds.
--
-- Not modelled: I/O, printing, the start of the HTTP server and its page, and the texts of times and
-- sizes, which depend on the machine or on floats.
pub mod Base
pub mod Core
pub mod Pool
pub mod Address
pub mod Backend
pub mod Codec
pub mod Storage
pub mod Chain
pub mod LevelDb
pub mod Query
pub mod Dashboard
pub mod Submission
pub mod Probe
pub mod Server
