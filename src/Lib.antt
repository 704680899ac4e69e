-- ===== src/Lib.antt =====
-- Sia with hostdb profiles: a network for decentralised storage whose renters pick hosts by
-- profiles. These files model the parts that decide which hosts a renter gets, which transactions
-- and blocks are valid, what they do to the consensus set, and how they are encoded.
--
-- A renter keeps profiles (modules/renter/hostdb/hostdbprofile), each a storage tier and a list of
-- locations. For each profile the host database keeps a host tree
-- (modules/renter/hostdb/hosttree): a binary tree of hosts, each with the weight that the profile
-- gives it, an index from public keys to nodes, and a blacklist of hosts outside the profile's
-- locations. The contractor draws hosts from a tree by weight and forms file contracts with them.
-- A contract is an entry in a transaction; types/validtransaction.go and types/signatures.go check a
-- transaction as far as that needs no consensus set, and modules/consensus checks the rest and applies
-- it to the consensus set, a database of outputs, contracts and the siafund pool.
--
-- A block is a list of transactions with the payouts of its miner. types/encoding.go writes
-- transactions and blocks as bytes and reads them back, and modules/consensus applies a block, reverts
-- it when another fork is heavier, and checks that the siacoins in the set are those of the coinbases.
--
-- Prelude: Boolean tests on the native numbers, lists, the maps of Go as association lists
--   (Prelude/Dict), and the monad of Option (Prelude/Options, Prelude/Monad).
-- Currency: types/currency.go and the fee of types/filecontracts.go. A `big.Int` is a natural
--   number; a subtraction below zero gives zero, as it does in a release build.
-- HostEntry: the fields of a host's entry that the tree reads.
-- HostTree: modules/renter/hostdb/hosttree.
--   HostTree/Node is `node` of hosttree.go. A pointer to a node is the path to it from the root,
--     since no node moves; `parent` is the path without its last step. `recursive_insert`,
--     `node_at_weight` and `remove` are recursiveInsert, nodeAtWeight and remove. Node/Weights,
--     Node/Entries, Node/Paths and Node/Pick say what they do.
--   HostTree/Index is the tree with the map `hosts`; its moves `place` and `take_out` are what the
--     methods do to both. Index/Invariant and Index/Find relate the two.
--   HostTree/Tree is `HostTree`: `insert`, `remove_host`, `modify`, `select` and `all_hosts` are
--     Insert, Remove, Modify, Select and All. Tree/Blacklist, Tree/Start, Tree/Methods and
--     Tree/Sorted say what they do, and Tree/Replay compares calls of them with a function.
--   HostTree/Random is SelectRandom, in the steps of the code.
--   HostTree/Trees is hosttrees.go.
-- Profiles: modules/renter/hostdb/hostdbprofile; Profiles/Settings, Profiles/Locations and
--   Profiles/Collection say what it does.
-- Transaction: the data of types/transactions.go, types/filecontracts.go and types/signatures.go.
-- Standalone: types/validtransaction.go, with types/signatures.go in Standalone/Signatures;
--   Standalone/Fresh, Standalone/Decides, Standalone/Valid and Signatures/Exact say what they accept.
--
-- Block: types/block.go; Block/Coinbase sums up the coinbases.
-- Encoding: encHelper and decHelper of types/encoding.go, with encoding/integers.go, as functions on
--   bytes. Encoding/Types, Encoding/Contracts and Encoding/Transactions are MarshalSia (`write_...`),
--   UnmarshalSia (`read_...`) and MarshalSiaSize (`..._size`) of each type; Encoding/Digits,
--   Encoding/Reads and Encoding/RoundTrip read back what is written, and Encoding/Words and
--   Encoding/Sizes measure it. A reader stands for a reader of bytes in memory. `digits` and `words`
--   run on fuel, as much as the number is.
--
-- Bolt: what modules/consensus uses of github.com/coreos/bbolt, as an interface with its documented
--   laws; Bolt/Totals sums over a bucket, Bolt/Entries goes through one, and Bolt/Pairs is
--   a bucket that obeys the laws.
-- Consensus: modules/consensus, of a release build.
--   Consensus/Chain has the constants of a build and the ids, which are hashes, as parameters.
--   Consensus/Store is the accessors of consensusdb.go, Consensus/Diffs diffs.go, Consensus/Apply
--     applytransaction.go and Consensus/Valid validtransaction.go.
--   Consensus/Maintenance is maintenance.go, generateAndApplyDiff and tryTransactionSet, and
--     Consensus/BlockValid block_validation.go.
--   Consensus/Revert is the application of a block's diffs and their revert: Revert/View sees the
--     buckets as functions and gives the specification of a commit, Revert/Kinds, Revert/Node and
--     Revert/Block compare it with the code, and Revert/Undo, Revert/Fits and Revert/Undone undo it.
--   Consensus/Supply is the counts of consistency.go, with a module for each part of a transaction's
--     application; Supply/Checked, Supply/Accepted and Supply/Applicable say what the checks
--     give, Supply/Parts and Supply/Conserved put the parts together, Supply/Matured, Supply/Missed,
--     Supply/Expired and Supply/Maintained are the maintenance, Supply/Minted is a whole block, and
--     Supply/Counted a chain of them.
--
-- State is passed from call to call; the locks of the code keep calls apart. A call that returns an
-- error is a value of a sum type, and so is a panic. The loop of SelectRandom runs on fuel, as much
-- as there are hosts left in the tree, which is enough, since each round takes a host out.
--
-- Parameters: the random source of SelectRandom (fastrand.BigIntn), of which it is assumed that its
-- answers are below their bounds; sort.Sort, of which the documentation is assumed; the weight function of a host tree; the size of an encoded
-- transaction; the check of an ed25519 signature against the hash of a transaction. An ed25519 key or
-- signature that does not decode is a failed check, whatever the error of the decoder is. The
-- heights of hardforks differ between builds and are parameters.
--
-- Of the consensus set: the database, with its laws; the ids, assumed to be unused where a transaction
-- creates them; the hash that picks a segment and the check of a Merkle proof. A height is a uint64 that
-- wraps around.
--
-- Not modelled: the block map, the difficulty and the choice of forks of the consensus set, the
-- encoder by reflection, the JSON forms, the network, the files, the
-- wallet, the transaction pool, the miner, the explorer, the api and the command line. Hashes and ids
-- are numbers that are only compared.
pub mod Prelude
pub mod Currency
pub mod HostEntry
pub mod Transaction
pub mod Standalone
pub mod HostTree
pub mod Block
pub mod Encoding
pub mod Bolt
pub mod Consensus
pub mod Profiles
