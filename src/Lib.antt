-- ===== src/Lib.antt =====
-- AINumbers Helm, a local hub that runs workflow manifests and keeps evidence of what it did. This
-- library models the hub's core and proves what it promises.
--
-- The parts and how they meet:
--   * Canon (hub/record-canon-v1.mjs): `record_canon_v1` is the text that every digest is taken over.
--   * Journal (hub/journal.mjs): an append-only table in which the rows of each stream are linked by a
--     running hash. `append_entry` is appendEntry, `replay_verify` and `replay_verify_from` are the
--     full replay and the one that a boot makes from its last checkpoint.
--   * Run (hub/run.mjs): the run engine. `plan_steps` and `validate_manifest_bindings` read a
--     manifest (Run/Manifest, Run/Order, Run/Plan), Run/Tables has the rows, the state machine and the
--     memo of step results, `execute_run` and `replay_execution_hash` (Run/Engine) are executeRun and
--     replayExecutionHash. Every transition is an entry of the journal.
--   * HaStore (hub/ha-store.mjs): human-accountability records and maker-checker slots, which the gate
--     of the run engine consults.
--   * Token (hub/token.mjs): the four kinds of single-use credentials that the server redeems.
--   * Webhook (hub/webhook-guard.mjs, and its order of use in hub/server.mjs): freshness, nonces and
--     the idempotency cache of inbound deliveries.
--   * KeyLifecycle (hub/key-lifecycle.mjs): `verify_key_lineage` is the audit of a key's history,
--     `assert_rotation_appendable` the guard before a rotation is stored.
--   * AnchorQueue (hub/anchor-queue.mjs): checkpoints that wait for a timestamp anchor, and the pass
--     that tries them again within the relay's rate limit.
--   * Envelope (hub/envelope.mjs): `emit_envelope` and `verify_envelope` are emitEnvelope and
--     verifyEnvelope, over any two signature libraries.
--   * Checkpoint (hub/checkpoint.mjs): `build_checkpoint` signs the heads of the journal's streams in an
--     envelope, and `verify_checkpoint` compares one with the live heads.
--   * Connector (hub/connector.mjs): `perform_egress` is performEgress, the only way out of the hub. It
--     asks the allow list, vets the address (Connector/Addresses), pins the hostname to it
--     (Connector/Pins) and tells each decision to the journal.
--   * HaGate (hub/ha-gate.mjs): the gate that the engine asks before a step and the scan for the step
--     that holds a run (HaGate/Check), and the submissions and checks that write to HaStore
--     (HaGate/Attest). The vendored evaluator of policies is a parameter.
--   * Matter (hub/matter-store.mjs): matters and their bindings to runs, records, bundles and attested
--     artifacts (Matter/Store), the identifiers (Matter/Ulid), and the signed export at the close with
--     its PDF and load file (Matter/Export, Matter/Pdf, Matter/EBundle, Matter/Dat).
--   * WatchScheduler (hub/watch-scheduler.mjs): the checks of a watch (WatchScheduler/Cadence), the
--     file of watches (WatchScheduler/File), and the tick that fires the due ones through the engine
--     and the gate (WatchScheduler/Loop). Instants are milliseconds.
--   * Json and Prelude: JSON values as the code reads them, and helpers.
--
-- State is passed explicitly: an operation takes the tables and returns them with its result. A call
-- that throws returns an error value beside the tables that it left behind. SHA-256 is a parameter
-- wherever a digest is taken, as are the step runner, the gate check, the random texts, the clock and
-- the vendored record validator. Maps and keyed tables are association lists, ordered tables are
-- lists. The engine's loops are structural: over the steps, the rows, the bindings. The
-- topological order takes as many rounds as there are steps; the walk of the audit has one round more
-- than there are rotations; the egress loop has six rounds, one more than the redirects that are
-- allowed. That these are enough is in the list below.
--
-- The resolver, fetch and `new URL` are parameters of the egress, and the signature libraries of the
-- envelopes; the matter store takes the validator of its schema.
--
-- A record that a digest is taken of is within the limits of assertIJson (safe integers, depth at most
-- 512, at most as many elements as it allows), which throws otherwise: numbers are unbounded here. One
-- reading of the clock stands for all those that a call of executeRun makes, whose texts only go into
-- the rows. toLowerCase is that of ASCII letters.
--
-- Not modelled: SQL and file I/O, HTTP, what signatures are made of, credentials of connectors, the
-- timing of concurrent requests (the hub is one process with one writer) and ticks of the scheduler
-- that overlap, negative and fractional JSON numbers, a JSON.parse of what JSON.stringify wrote, which
-- is taken to return the value, the browser's pages, and the vendored kernels.
pub mod Prelude
pub mod Json
pub mod Canon
pub mod Journal
pub mod Token
pub mod Webhook
pub mod HaStore
pub mod Run
pub mod KeyLifecycle
pub mod AnchorQueue
pub mod Connector
pub mod Envelope
pub mod Checkpoint
pub mod Matter
pub mod HaGate
pub mod WatchScheduler
