-- ===== src/Lib.antt =====
-- A verification library of the JSON-RPC gateway in rpc-src/, which lets Foundry scripts deploy to
-- TRON. Foundry predicts contract addresses that TRON does not use; the gateway keeps the map between
-- the predicted and the actual addresses of each chain and orders the transactions of each signer.
--
-- Parts and files:
-- - rpc-src/transaction-queue.ts, the nonce-ordered queue: Queue. Queue.State has the records of the
--   source and what the event loop holds for the queue; Queue.Admission has `enqueue`, `_settle`,
--   `_clearDeadline`, `_armDeadline`; Queue.Pump has `_pump`, `_afterRun` and the callback of the gap
--   deadline; Queue.World has the steps of the program and of the event loop. A function of the
--   source that runs to its end without a turn of the event loop is one function of the model, and
--   the private methods keep their names without the underscore. `_pump` is cut at its early returns
--   into `pump`, `pump_idle`, `pump_from`, `release`, `start`, `wait` and `drop_signer`.
-- - rpc-src/address-map.ts, the durable address map: AddressMap. State has the records; Equality the
--   comparisons; Mappings the address mappings; Metadata, Snapshots, Descriptors and Baselines the
--   other indexes of a chain; Resolve the lookups by address. Bijection, Acceptance, Storing,
--   Captures, CaptureReads and Floors hold proofs. Each function keeps its name, and a function
--   that changes the chain in place returns the changed chain.
-- - rpc-src/address-codec.ts passes on the address conversions of the package
--   @openzeppelin/tron-runtime: Codec takes them as a parameter, with the assumption that an
--   accepted address is normalised once.
-- - Base: tests, lists, texts, dictionaries, results, weights.
-- - rpc-src/log-translation.ts, the translation of the addresses in event logs: Logs. Translation has
--   the functions of the source, Words and RoundTrip the proofs. The mapper is a parameter.
-- - rpc-src/immutable-projection.ts, the addresses that runtime code embeds: Projection. Code has the
--   functions of the source, Windows and Binding the proofs. The keccak hash of a template, a call
--   of the package ethers, is left out, and so is the flattening of the compiler's reference map.
-- - rpc-src/journal.ts, the durable transaction journal: Journal. State has the records; Equality the
--   comparisons; Validation, Plan and Records the checks of what is stored; Operations one function
--   per method, as the callback that it hands to the store; Requests their runs; Durable the same
--   calls as transactions of the store. Moves, Calls, Building, Attempts, Nonces and Lifecycle hold
--   proofs.
-- - rpc-src/store.ts, the durable store: Store. State has the state root and its validation; Files the
--   operations on the file system, each of which may fail: a failed look-up counts as a missing file, as
--   `existsSync` has it, and a failed removal leaves the temporary file; Transactions the methods.
--   Crashes, Naming, Reading and Refinement hold proofs. The text of a file is the state that it encodes.
-- - rpc-src/artifact-identities.ts, the names of the TRON proxy contracts: Identities.
-- - rpc-src/create-reconciler.ts, the reconciler of the contracts that a transaction creates:
--   Reconciler. State has what it throws, a code and a message, and the simulations that it reads; Checks the functions up
--   to `assertConstantProfile`; Derive `derivePlan`, whose loop keeps its three maps in a record;
--   Prepare the reservation of counters and `recordPreparedNative`; Receipt the checks of a confirmed
--   receipt; ReceiptEquality the comparison of receipts; Reconcile the method `reconcile`. Counting,
--   Reserving, Preparing, Settling and Slots hold proofs; Slots is over the runs of
--   `recordPreparedNative` and of the journal together.
-- - rpc-src/receipts.ts: Receipts. Numbers has `toBigInt`, `quantity` and the effective gas price;
--   Creations `internalCreateAttempts`. RoundTrip, Price and Classification hold proofs. The digits
--   of a number are written with as much fuel as its value, and each digit takes one.
--
-- Conventions: a string that the code looks into is the list of its character codes; an object used
-- as a map, and a Map, is a list of entries in insertion order; an object of a known shape is a
-- record, so the source's tests of field names and of field types have no counterpart, and the
-- comparison of two JSON texts is that of the records; code that throws returns a Result, whose
-- error has the text of the source less the parts that are computed. Numbers are natural numbers;
-- the source's bigint nonces are not bounded, and its safe integers are tested as such. An address
-- codec is a parameter throughout. The expected nonce of a signer, which the queue reads from the
-- journal, is a function that the steps of Queue.World may let grow; it is assumed to return. When it
-- throws, in a microtask, in a timer or after a callback, no code of the gateway catches the error, and
-- the process, with the queue that it holds in memory, ends.
--
-- The functions need no fuel but for the digits of a quantity: every loop of the source runs over a
-- finite list, and is structural recursion here. A step of Queue.World is one turn of the event
-- loop, so the theorems on runs hold for runs of any length and any order of the environment's
-- choices.
--
-- Not modelled: `translateReceipt`; the JSON-RPC handlers, the HTTP server and its clients, the
-- configuration, the command line, the calldata rewriter, the artifact catalogue, and the state lock;
-- the filter parameters of eth_getLogs; the constructors of the journal, the store and the
-- reconciler, which test types; also the Solidity library, the scripts and the tests.
pub mod Base
pub mod Codec
pub mod Queue
pub mod AddressMap
pub mod Logs
pub mod Projection
pub mod Journal
pub mod Store
pub mod Identities
pub mod Reconciler
pub mod Receipts
