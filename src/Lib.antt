-- ===== src/Lib.antt =====
-- The board of sandboard: the server that keeps work items (cards) for coding agents, hands them out
-- under leases, and tells its clients about every change by a numbered feed of events.
--
-- The parts, with the code that they are about:
--   Prelude   names shared by all files: numbers, lists, options, results, texts, signed numbers.
--   Map       `BTreeMap` and `BTreeSet` as association lists with their laws, and the index from
--             keys to sets of ids.
--   Schema    src/schema.rs: the levels of cards, `owner/name` of a repository, the repository that
--             prose names.
--   Model     src/model.rs: lifecycle states, cards, pull requests, plans, the cockpit session.
--   Machine   src/machine.rs: legal edges, guards of a transition, rules of the cockpit session.
--   Board     src/store.rs and src/events.rs: the struct `Board` and its methods.
--   Supervisor  src/supervisor.rs: the decisions of the loop that runs agents in sandboxes, without its
--             input and output.
--   Socket    src/ws.rs: the handshake of a WebSocket, its frames (`read_frame`, `write_frame`) and the
--             loop of a connection, which follows the feed of Board.
--   Sse       src/sse.rs: the stream of server-sent events, which follows the feed, too.
--   Auth      src/auth.rs: signed cookies and login states, and the gate before the API.
--   Engine    src/engine.rs: the registry of agent engines and their command lines.
--
-- In Board, the file of a component holds its definitions: State (`BoardState` and its indexes), Core
-- (`Board` and actions), Event, Tree (reads), Feed (`emit`, `story`, `catch_up`), Transition
-- (`transition_locked`), Moves (`transition`), Create, Project (`create_project`, `create_task`),
-- Fields, Proposal, Worker (verbs of the agent), Dispatch (the queue), Human (verbs of a human), Scope
-- (verbs on a subtree), Cockpit, Plan (the Initial plan of a Project), Split (`propose_split`), Review
-- (approvals), Repo (`resolve_card_repo`), Merge (pull requests of a card), Rebase (the mergeable check
-- of cards in Review) and Advance (`notify_main_advanced`). A method is a function of the same name into `Action E A`, which is
-- `Board → Result E A × Board`: what was written before an error stays written. `change_card` stands for
-- a block that takes the write lock, looks the card up with `get_mut`, tests and changes it. The
-- invariants stand in Sound (what is kept), Invariant (one lemma for each method, under any predicate
-- that survives the primitive writes) and Kept (the predicates that do, and the boards that are reached
-- by calls); what is shown of one component only stands in the folder of its file, and Examples holds
-- the concrete boards.
--
-- Choices. A call sees one instant, the board's `clock`; times are nanoseconds. Ids, sequence numbers
-- and counters are natural numbers: the overflow of u64 and u32 is not modelled, nor is the panic of
-- chrono where a number of seconds is beyond its range (`deadline_after`). `progress` is counted
-- in units of f32::EPSILON. The channel `tx` is the list `sent`. A tokio runtime is taken to be there,
-- so that each deletion of a sandbox is spawned: `deleted` lists them. The fields of `BoardState` that
-- hold settings are left out, and so is the briefing text of `ClaimGrant`. `to_lowercase` changes ASCII
-- letters only. `create` and `seed_initial_plan` call one another in the source: `create_under` is
-- `create` for a card with a parent, which seeds nothing. `approve_review` and `approve_plan` do so, too:
-- the body of the first takes the second call as an argument. The default upstream of the schema and the
-- test `char::is_alphanumeric` are arguments of the methods that use them. In Supervisor, a file is what
-- serde has decoded, and a script's output is its text. `transition_plain` is `transition` to a state
-- that is not terminal, where nothing follows the event. In Socket, a reader is the list of the bytes to
-- come, a read is never cut off by another branch of `select!`, the calls of serde are the fields of
-- `Json`, and an input of the loop is one branch of `select!` with the board of that moment, or
-- an event that comes into the connection's queue. The queue holds the 1024 events of
-- `broadcast::channel(1024)`; as tokio documents it, each
-- further event drops the oldest one, and the reader is told so first. In Auth,
-- a cookie is the list of its bytes, and HMAC, base64, serde and the check of a password are the fields of `Crypto`.
--
-- Bounds. `depth` and `chain` stop after 33 rounds in the source, too. The walks of `cut_scope`,
-- `unarchive_scope` and `delete_item` take the number of their rounds, and `none` says that it ran out:
-- on a sound board two more than the card has children are enough for the first two.
--
-- Not modelled: settings and credentials, the asynchronous loops of the supervisor and its briefing
-- texts, the HTTP and MCP interfaces, OAuth, the OpenShell client, the database and the web
-- client.
pub mod Prelude
pub mod Map
pub mod Schema
pub mod Model
pub mod Machine
pub mod Board
pub mod Auth
pub mod Engine
pub mod Socket
pub mod Sse
pub mod Supervisor
