-- ===== src/Lib.antt =====
-- The receipt runtime of this repository: proposals are judged by a constitution and a budget,
-- every answer is a signed receipt, and the receipts are a hash chain kept in a log.
--
-- How the parts interact. A request reaches the host (crates/boardproof-host/src/api.rs), which
-- drives the kernel under one lock and appends the receipt to the log under another. The kernel
-- (crates/boardproof-kernel/src) asks the constitution, charges the lease, mints a receipt with the
-- next sequence number and the hash of the last leaf, and has the signer sign it. The log
-- (crates/boardproof-store/src) takes a receipt only if it extends the chain; one in SQLite
-- (crates/boardproof-store-sqlite/src) makes the same tests against what it has cached of its table.
-- The router (crates/boardproof-router/src) puts a pending receipt, explained by
-- crates/boardproof-explain/src, to an operator and brings the answer back to the kernel.
--
-- Files:
--   Prelude       Boolean tests, lists, results and texts, shared by the rest. A text is the list of
--                 its bytes; in a JSON value a string is the list of its code points.
--   Receipt       crates/boardproof-receipt/src: lib.rs, with Receipt/Hex for the hexadecimal
--                 digests, Receipt/Json and Receipt/Canonical for canonical.rs, Receipt/Crypto for
--                 content ids, signing and verifying.
--   Budget        crates/boardproof-budget/src: budget.rs, lease.rs, error.rs. Budget/Accounting
--                 is about a charge, Budget/Delegation about a delegation, Budget/Fleet about all
--                 leases that stem from given ones, Budget/Names about the names of errors.
--   Constitution  crates/boardproof-constitution/src: rule.rs, verdict.rs, evaluator.rs.
--                 Constitution/Precedence is about what the rules decide.
--   Tools         crates/boardproof-tools/src: tool.rs; Tools/Glob and Tools/Capabilities for
--                 capability.rs. Tools/Glob/Search and Tools/Glob/Wildcards are about the matcher,
--                 Tools/Grants about the capabilities. Tools/Registry is host.rs and noop.rs.
--   Sleep         crates/boardproof-sleep/src/lib.rs: the passes and their reports; Sleep/Walker is
--                 the walker over the log.
--   Kernel        crates/boardproof-kernel/src and crates/boardproof-approval/src: types, `mint` and
--                 the chain state. Kernel/Proposals, Kernel/Approvals, Kernel/Reports and
--                 Kernel/Executions hold the handlers, Kernel/Machine is `Kernel::handle`.
--                 Kernel/Machine/Chain, Gates and Authority are about it. Kernel/Messages holds the
--                 texts of the errors.
--   Store         crates/boardproof-store/src: log.rs, memory.rs. Store/Verifies is about the chain
--                 check, Store/Lookup about the index, Store/Messages holds the texts of its errors.
--   Sqlite        crates/boardproof-store-sqlite/src/lib.rs: the log in a database. Sqlite/Opening is
--                 about opening a file. Sqlite/Storage states the behaviour of the database, and
--                 Sqlite/Refines, Appends, Reads and Reopens set the log beside the one of Store;
--                 Sqlite/Outcomes is about the steps of opening a file.
--   Host          crates/boardproof-host/src: api.rs and signer.rs. Host/Tracking, Host/Serving,
--                 Host/Race and Host/Interleaving are about the kernel and the log together,
--                 Host/Lifecycle about what follows a proposal. Host/Requests, Host/Resolutions and
--                 Host/ToolExecutions hold the handlers of POST /v1/proposals, POST
--                 /v1/approvals/{content_id}/resolve and POST /v1/tool-executions, Host/Auth the
--                 bearer token before them. Host/Lookup is GET /receipts/{hash} and GET /healthz of
--                 lib.rs, Host/Calendar is clock.rs, and Host/Calendar/Years and Days are about its
--                 dates. Host/Responses holds the answers to failures.
--                 Host/Startup is bin/boardproof-host.rs before it listens, with Host/Startup/Modes for
--                 its modes; Host/Startup/Sorting and Loading are about a directory of receipts.
--   Explain       crates/boardproof-explain/src: lib.rs, with Explain/Render for render.rs.
--                 Explain/Agreement sets it beside the kernel.
--   Router        crates/boardproof-router/src: router.rs and orchestrate.rs, with Router/Cli for
--                 cli.rs. Router/Routing and Router/Asking are about the two.
--   Redact        crates/boardproof-redact/src: redactor.rs, stack.rs and pattern.rs. Redact/Stacking
--                 is about stacks.
--   Fetch         crates/boardproof-tools-http/src: ssrf.rs, with Fetch/Requests for lib.rs, envelope.rs
--                 and config.rs. Fetch/Ranges sets ssrf.rs beside the table of ranges in its header,
--                 Fetch/Hosts states the behaviour of the library of URLs, and which requests may
--                 be sent; Fetch/Calls and Fetch/Guards are about what goes out.
--   Secrets       crates/boardproof-secrets/src: broker.rs, memory.rs, env.rs.
--   Wasm          crates/boardproof-tools-wasm/src: config.rs, error.rs, limits.rs. Wasm/Host is
--                 host.rs, which answers a guest, Wasm/Guests the run of a guest with its host, and
--                 Wasm/Tool is tool.rs. Wasm/Logs, Secrets, Requests, Audit and Gates are about what a
--                 run leaves and sends, Wasm/Memory about the result of a core module.
--   Tests         a small instance of everything, and the theorems applied to it.
--
-- State is passed explicitly: an operation on `&mut self` returns the new value beside its result.
-- A request's two locked steps are the functions `drive` and `store` of Host, so that requests which
-- interleave are sequences of them, and Host/Interleaving has them as steps of a relation. A guest of
-- a WebAssembly tool is the tree of what it asks of its host and how it goes on with each answer. A
-- clock is a function of the number of the reading. A map of content ids to positions is an
-- association list with the newest entry first.
--
-- Integers are natural numbers with the saturation of the source written out: u64 for bytes,
-- milliseconds and sequence numbers, u32 for writes, tokens and uses. `saturating_sub` is the
-- subtraction that stops at zero. A `usize` is taken to hold every u64. A signed integer is the ℤ of
-- Prelude/Integers; the one sum of i64s that can overflow, in Host/Calendar, wraps around as in a
-- release build. Two functions run on fuel: `decimal`, which prints a number, has fuel for one digit
-- more than the number itself, and `strip_all` of Host/Lookup, which takes two bytes off at each
-- round, has the length of its text.
--
-- Foreign code is the record `Foreign` of Receipt/Crypto: BLAKE3, Ed25519 and the encodings that
-- serde derives. The program relies on two things of it: a body has no float, so it has a canonical
-- form; and a key's own signature verifies (`SignsSoundly`, a hypothesis where it is used). That
-- BLAKE3 has no collisions is not assumed: where it matters, a statement names the collision.
-- The statements that are run on the database are the record `Engine` of Sqlite, and what SQLite
-- documents of them, constraints, order and failure without effect, is `Stores` of Sqlite/Storage:
-- any statement that writes may fail there, and files are taken to be readable. What the library of
-- URLs documents of hosts, the brackets around an address of version 6 included, is `Hosts` of
-- Fetch/Hosts. The text of a header (`HeaderValue::to_str`), the quotation of a text by `{:?}`, the parsing of an
-- address, the environment and the libraries of regular expressions and of HTTP are parameters where
-- they are used.
--
-- A WebAssembly engine is the record `Engine` of Wasm/Tool: it parses and instantiates modules, runs
-- their functions, and turns a component into such a tree; fuel and deadlines end a run there.
--
-- Not modelled: the thread that moves the engine's epoch on, and the bindings that a macro makes.
-- The zeroing of secrets and the default patterns of redaction are left out. The parsing of command
-- lines, the sockets of the host, its static pages and the encoding of answers as HTTP are input and
-- output. The TOML parser and render_json of
-- crates/boardproof-explain/src/render.rs call derived encodings. The packages in Python and
-- TypeScript are left out as well.
pub mod Prelude
pub mod Receipt
pub mod Budget
pub mod Constitution
pub mod Tools
pub mod Wasm
pub mod Sleep
pub mod Kernel
pub mod Store
pub mod Sqlite
pub mod Host
pub mod Explain
pub mod Router
pub mod Redact
pub mod Fetch
pub mod Secrets
pub mod Tests
