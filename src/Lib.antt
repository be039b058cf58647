-- ===== src/Lib.antt =====
-- A verification library of manapds, a personal data server: the parts of it that decide what a
-- repository is and who may spend what, as functions, and theorems about them.
--
-- The program takes records from account holders, each under a collection (an NSID) and a record
-- key, and keeps the records of one account in a Merkle search tree, whose nodes are blocks named by
-- their hash. A commit applies a list of writes to the tree and signs its root under a revision, a
-- TID that a clock mints; the blocks of a repository travel in CAR files. A sign-up takes a handle
-- under the server's rules, and a session is a pair of tokens that the server mints and later
-- verifies. An account is registered with the PLC directory under an identifier that is a hash of its
-- first operation. In front of all methods a middleware counts every request against budgets.
--
-- Which file models which part (paths from the repository's root, the crate is in src/):
--   Syntax               src/syntax.rs: the error, and `parse` of each identifier
--   Syntax/Tid           src/syntax/tid.rs: validate, parse, encode, from_parts, to_parts, Clock (mint,
--                        mint_after); Digits, Codec, Valid, Order and Mint are its theorems
--   Syntax/Did, Handle, Nsid, RecordKey, AtIdentifier, AtUri
--                        the files of those names in src/syntax/; Handle/Case, RecordKey/OfTid and
--                        AtUri/Printed are theorems
--   Repo                 src/repo.rs: the error; a CID is its bytes
--   Repo/Block           src/repo/block.rs: Store, read, BlockMap (add, merge, and as a store)
--   Repo/Mst             src/repo/mst.rs: the types and the reader. Key: the keys and their layers.
--                        Stored, Node: deserialize, fill, serialize, index_of, root_in. Layer:
--                        find_layer. Find: get, cids_for_path, leaves. Edit: add, update, split_around.
--                        Delete: delete, append_merge, trim_top. Blocks: root, unstored_blocks.
--                        Walk, Dropped: Walker, Diff and `dropped`; Changed, Standing and Merged lead
--                        to Listed, its theorem on trees of one node;
--                        Emptied is on `delete` of the only record.
--                        Items (the records of a tree), Spot (where a key falls in a node), Layered
--                        (the shape of a tree), Lookup, Shape, Split, Raise, Insert, Within, Add, Taken,
--                        Update, Records and Path lead to Whole and Revised, with the theorems on whole trees
--   Repo/Write           src/repo.rs: Write, and the check and the loop of `Repo::apply`; Puts has the
--                        theorem on a list of puts
--   Repo/Commit          src/repo/commit.rs: Commit, sign, verify
--   Repo/Revision        src/repo.rs: Repo (create, load, apply, get, proof, records, verify); Steps,
--                        Advance and Next are theorems on `apply`
--   Repo/Car             src/repo/car.rs: write, write_blocks, read, read_roots, read_blocks; Order,
--                        Reads, Checked, Blocks and Trip are theorems
--   Crypto               src/crypto.rs: same, base32; Same and Base32 are theorems
--   Account/HandleRules  src/account/handle.rs: Rules (normalize, service_domain, is_local, signup); Taken
--                        and Again are theorems. Reserved, with the tables NamesA to NamesG:
--                        src/account/handle/reserved.rs
--   Xrpc/Headers         src/xrpc/limit.rs: Reading::write; Waited is its theorem
--   Xrpc/Status, Failure src/xrpc.rs: the status of an answer, and the error of a method; from
--                        src/xrpc/route.rs: fallback, mismatch
--   Xrpc/Auth            src/xrpc/auth.rs: Scope, Tokens (mint, verify, access, refresh); Token and Session
--                        are theorems
--   Xrpc/Credential      src/xrpc/auth.rs: the Authorization header and the extractors of a caller; Callers
--                        has the theorems
--   Plc                  src/plc.rs: Operation (create, did, verify), Tombstone; Signed has the theorems
--   Plc/Client           src/plc.rs: Client (send, confirm, retire and the exchanges they are made of); Left, Told
--                        and Timed are theorems
--   Xrpc/Limit           src/xrpc/limit.rs: Limiter::consume, Reading, tightest; Budget, Trace and
--                        Tightest are theorems
--   Xrpc/Caller          src/xrpc/limit.rs: caller, budget, internal, canonical; Trust has the theorems
--   Xrpc/Limits          src/xrpc/limit.rs: Limits, `global`, `method`, `writing`; Keep and Held have
--                        the theorems
--   Tests, and Tests in Repo/Mst (with Samples), Repo/Write, Repo/Revision, Repo/Car, Crypto, Account, Plc,
--   Xrpc, Xrpc/Auth
--                        the theorems at concrete inputs
--   Prelude              text as bytes, results, maps, lists and numbers that the parts share
--
-- How the code is written here. A `str` is the list of its bytes. A method that changes `self` takes
-- the value and gives it back changed, beside its result. `?` is the bind of a do block. The reader of
-- a traversal has its `seen` set as the state of the monad `Read`, and its depth as fuel: `descend`
-- fails at the 257th level, and each function of the tree starts with `depth_max`, 256, and fails with
-- the same error at 0. That is enough: a digest has 32 bytes, so a layer is at most 128, and every step
-- down a tree lowers the layer. Loops over lists are structural. The
-- loop of `dropped` is on fuel that its caller gives, one for each round; out of fuel it gives no answer,
-- and for two trees of one node each it is shown that a round for each record and two more are enough. Reading a CAR file takes one round for each byte and one
-- more, which is enough, since a block takes a byte at the least. The machine integers that can wrap or
-- saturate have it written out. An instant is a number of nanoseconds, and the wall clock an argument;
-- one instant stands for the reads of it in one request. The lock of a budget is held for a whole call,
-- so a call is one step. `Repo::apply` changes
-- `self` and the clock: `State` is the two of them. A map that the source keeps in order of its keys is an
-- association list, put in order where the order shows.
--
-- A whole tree is one in memory: the empty one, or one with its keys in order and every key on the
-- layer of its hash. The theorems on it are about trees that are built up and held, not about one that
-- is read from a store half way.
--
-- Third-party code is an argument: sha-256, the CID of a block, dag-cbor, the order and the reader of CIDs,
-- the varint codec, keys and signatures, base64, the JSON of a token, the MAC, the parser and the printer of
-- IP addresses, serde's view of a sign-in, the fresh id of a token. A theorem that relies on such code says
-- so in a hypothesis: that a digest has 32 bytes, that a codec gives back what it was given, that a public
-- key takes what its key signed, that a text of digits may stand in a header, that a reader takes up at
-- least a byte. The PLC directory with the network before it is a state, and what is asked of it is that it
-- answers truly, that a connection never made carries nothing, and that an exchange is over when its budget
-- is.
--
-- Not modelled: records as JSON, the account service with its state of an account, documents read from the
-- PLC directory, service tokens of other servers, the curves and hexadecimal, events, SQL stores, the
-- handlers of the HTTP methods, the wiring of routes, and configuration. They are input and output, glue
-- over third-party crates, or not reached yet.
pub mod Prelude
pub mod Syntax
pub mod Crypto
pub mod Repo
pub mod Account
pub mod Plc
pub mod Xrpc
pub mod Tests
