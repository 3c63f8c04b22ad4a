-- ===== src/Lib.antt =====
-- A verification library for the ORMP indexer: a service that fetches the logs of message-port
-- contracts from the Datalens service, decodes them, and stores them in a database, chain by chain.
--
-- The program's parts, and how they interact. For each configured chain the runner (src/runner.rs)
-- makes passes: it reads the chain's checkpoint from the checkpoint store (src/checkpoint.rs and
-- src/database.rs), rolls back what a reorganisation of the chain has replaced, asks the Datalens
-- client (src/datalens) for the chain's head and then for range after range of logs, has the decoder
-- (src/decoder) make events of them, and hands events, block anchors and the next checkpoint to the
-- writer (src/database.rs) in one call. The planner (src/planner.rs) knows the chains, and
-- the configuration (src/config.rs) names those that are enabled. A command (src/tron_recovery) scans
-- the blocks of one more chain for past events, with the same decoder and writer.
--
-- What is shared:
--   Base          names of the libraries, tests on numbers, lists, failures (`Result`), the machine
--                 words, texts as lists of bytes, orders, ordered maps (`BTreeMap`), and `Action`,
--                 an async call that may fail and passes the state of the world on.
-- The files and the code that they model:
--   Config        src/config.rs: the finality modes and the settings of a chain (Config/Types,
--                 Config/Modes), and the settings that are read from the environment (Config/Env).
--   Datalens      src/datalens: the requests and answers of types.rs (Datalens/Types), what a query
--                 asks for (Datalens/Query) and the rows of its answer (Datalens/Wire) of query.rs,
--                 the attempts of a query (Datalens/Attempts), the loops over pages and attempts and
--                 the reader (Datalens/Client) and the pacing (Datalens/Pacer) of client.rs, with
--                 the delays and statuses of retry.rs.
--   Planner       src/planner.rs: the known chains and `plan_evm_log_queries`; Planner/Ranges is about
--                 what the planned queries cover.
--   Checkpoint    src/checkpoint.rs: `plan_next_range` (Checkpoint/Plan), the trait
--                 `CheckpointStore` as a record, `InMemoryCheckpointStore` (Checkpoint/InMemory).
--   Schema        src/schema: the decoded events (Schema/Types) and ids (Schema/Ids) of types.rs, the
--                 rows of rows.rs (Schema/Rows), the rules of assignments.rs (Schema/Assignments).
--   Runner        src/runner.rs: the traits it takes (Runner/Interfaces), the anchors of a range
--                 (Runner/Anchors), one range (Runner/Range), one pass with its reorg check
--                 (Runner/Pass), and the reports, totals and pauses of the loops (Runner/Reports).
--   Database      src/database.rs: the tables and the engine (Database), the upserts
--                 (Database/Inserts), the entry of assignments (Database/Backfill), the writer
--                 (Database/Writer), the checkpoint store and its rollback (Database/Store), and
--                 what statements and transactions leave behind (Database/Effects).
--   Decoder       src/decoder: texts of digits (Decoder/Hex), topics (Decoder/Topics), tokens
--                 (Decoder/Abi) and the seven events (Decoder/Events) of abi.rs, and the decoding of
--                 a log of evm.rs with the two decoders of types.rs (Decoder/Evm).
--   Recovery      src/tron_recovery: the service and its quantities of rpc.rs (Recovery/Rpc), the
--                 checks of the logs (Recovery/Decode) and the scan (Recovery/Scan) of scan.rs, and
--                 the guards of command.rs (Recovery/Command).
--
-- Conventions. Machine numbers are natural numbers: `saturating_`, `checked_` and wrapping operations
-- are written out, and a `u64` that is an input is only bounded where a theorem needs it. Error
-- messages are constructors of `Error`. Names are those of the source, where they are not words of
-- the language. A part of a long function that goes on after a branch is a definition of its own.
--
-- Loops. The `while` loop of a pass runs on fuel, target - next + 2 rounds; a round is meant to
-- end the pass or to move the next block up. The planner's loop has to_block - from_block + 2
-- rounds, each of which is meant to move its first block up. The endless loops of the service are
-- modelled over a list of results. The loop over the pages of an answer ends only if the service stops
-- handing out new cursors, so that it runs on a number of rounds that is given. A range of the recovery
-- of n blocks is halved at most n times, and its scan has end - start + 2 rounds, each of which is
-- meant to move the cursor up.
--
-- What is a parameter: the network, JSON, the clock, the database's engine and the packages `ethabi`
-- and `hex` are not part of the repository. The runner takes its four traits as records of functions on a
-- state, and the decoder takes the packages as a record, with what they rely on as named laws.
--
-- Not modelled: the statements of the recovery's store; the address, the headers and the time limit of
-- requests; metrics and log lines; the GraphQL API and the operations endpoints, which only read
-- the database; the start-up of the program; the floating-point estimates of log lines.
pub mod Base
pub mod Config
pub mod Datalens
pub mod Planner
pub mod Checkpoint
pub mod Schema
pub mod Decoder
pub mod Runner
pub mod Database
pub mod Recovery
