-- ===== src/Lib.antt =====
-- A model of the path ORAM library of this repository (path-oram/), with its secret sharing, and
-- of parts of path_oram_Cloak_Query/ and Shamir_Parser/, which build on it.
--
-- An ORAM object keeps blocks of data on an untrusted storage so that the storage sees only random
-- paths. The storage holds a binary tree of buckets, each of Z blocks. The position map gives
-- every block a leaf, and a block stands in the stash or in a bucket on the path to its leaf. An
-- access gives the block a new random leaf, reads the old path into the stash, reads or changes
-- the block there, and writes the old path back as full as it can.
--
-- The parts of path-oram/src, and the files that model them:
-- - oram.cpp: Tree (bucketForLevelLeaf, canInclude, leavesForLocation, and the locations that
--   readPath collects), Oram (the members), Oram/Cache (getCache, setCache, syncCache), Oram/Path
--   (readPath), Oram/Evict (writePath) and its child Erase (erasing from a vector by index),
--   Oram/Access (access, get, put, multiple). An object is a record; a member function goes from a
--   state to an outcome, which is a result or an exception and the state at that point.
-- - stash-adapter.cpp, InMemoryStashAdapter: Stash. position-map-adapter.cpp,
--   InMemoryPositionMapAdapter: PositionMap.
-- - storage-adapter.cpp: Storage is a record of what the protocol asks of AbsStorageAdapter (get
--   and set of whole buckets and fillWithZeroes, with their laws). Every statement about the
--   protocol takes any such record. Storage/Adapter is AbsStorageAdapter itself, over a record of
--   the virtual members; Storage/Memory and Storage/Files are the stores of InMemoryStorageAdapter
--   and FileSystemStorageAdapter. A child of Storage/Adapter, Meets, makes an adapter such a
--   Storage.
-- - oram.cpp, the constructor: Oram/Construct, with its children Laws and Recall.
-- - utility.cpp, encrypt: Utility. OpenSSL is a parameter, a record of functions of key, IV and
--   input; that decryption undoes encryption and keeps lengths is a hypothesis, IsCipher.
-- - the casts between numbers and bytes: Encoding.
-- - storeToFile and loadFromFile: Stash/Files and PositionMap/Files. ORAMPositionMapAdapter, which
--   keeps leaves in another ORAM: Oram/Recursive.
-- - utility.cpp, texts and keys: Utility/Text and Utility/Keys. The digest of OpenSSL and the
--   trimming of boost are parameters, the latter with the hypothesis IsTrimRight.
-- - utility.cpp, random numbers: Random; the shuffle of the stash: Random/Shuffle.
-- - helpers.cpp, SecretPair.cpp, shamir.cpp: SecretSharing, with signed overflow and endless loops
--   as values (Common/Int, Common/Checked); Lagrange and Interpolate prove interpolation modulo a
--   number. The random source of the C++ library is a stream of numbers.
-- - trusted_proxy_layer.cpp: ProxyLayer, with the stream cipher of libsodium as a parameter, a
--   record of functions, and what libsodium documents of it as the hypothesis IsStream.
--   shamirSecretSharing does not look at the option it is given but sets it to "-decrypt", and so
--   does the model
-- - splitter.cpp, and the keys of trusted_proxy_layer.cpp: Splitter, where a file of shares is the
--   numbers on its lines and a server without one is none
--
-- Of path_oram_Cloak_Query/: the framing and serialisation of containers is Cloak/Containers, the
-- bucket MACs are Cloak/Macs, with hmac as a parameter, and the stash is Cloak/Stash. Of
-- Shamir_Parser/: the conversions, the files of shares and the transposition of shares are
-- ShamirParser. Signed numbers there are taken from 0 on, and characters below 128. The files of
-- shares are text: decimal digits between bars, which loadAllShares cuts, trims and reads.
--
-- Types has the types of include/definitions.h, Common the shared helpers, and the other files the
-- proofs: the children of Tree, Stash/Laws, Oram/Cache/Laws and Fetch, Oram/Path/Stashing and
-- Reading, the children of Oram/Evict and of Oram/Access, and Oram/Invariant and Oram/Memory,
-- which state what an object has to keep and to promise. Tests has the runs at concrete inputs.
--
-- Conventions and bounds. Numbers are natural numbers, and the code's wrap-around is written out.
-- The code shifts an int, so trees have 1 to 31 levels. Unordered containers are lists, visited in
-- their order. The random source is a stream of words, any stream; the flags TESTING and DEBUG,
-- which take rand() instead, are left out, as is the line that bucketForLevelLeaf prints. Loops
-- recur on their lists or on numbers of rounds, but for these, which have fuel: log2_floor and
-- modmult 64, since 64 halvings take any 64-bit number to 0, the digits of a number in a file of
-- shares 20, as a 64-bit number has at most, intToString 9 for eight divisions by 256, the batches
-- the number of their requests and loadFromFile, read_file and the encryption the size of the
-- file, since each round takes one at least. A file is its bytes, and opening it succeeds or not;
-- what the code leaves undefined, such as reading past the end or an index past the end of a
-- vector, is none, or an outcome of its own, outside_vector, or ends at the end, and the
-- statements are about inputs where it does not happen.
--
-- Not modelled: ORAM::load, whose locations go through floating point, the storage adapters of
-- Redis and Aerospike (calls of client libraries), the printing and timing of the proxy layer, the
-- paths and the storage of path_oram_Cloak_Query/, the tables, dates and floating-point shares of
-- Shamir_Parser/, and cpp-sql-server/.
pub mod Cloak
pub mod Common
pub mod Encoding
pub mod Oram
pub mod PositionMap
pub mod ProxyLayer
pub mod Random
pub mod SecretSharing
pub mod ShamirParser
pub mod Splitter
pub mod Stash
pub mod Storage
pub mod Tests
pub mod Tree
pub mod Types
pub mod Utility
