-- ===== src/Lib.antt =====
-- PIConGPU agent: a model of the core of src/pic_agentic, with its correctness.
--
-- The program runs simulation campaigns on a cluster. A client on the cluster and a server exchange
-- signed messages over a chat room (src/pic_agentic/rcp); the server advances declared campaigns, the
-- agendas, in ticks (src/pic_agentic/agenda): a tick folds what was observed of the jobs into the tree
-- of simulations, plans, submits what the gates let through, and persists the campaign.
--
-- Files, and the code they model:
--   Common       Shared helpers: Boolean tests, texts, lists, dictionaries (Dict), Python's floats
--                (Float) and JSON values (Value).
--   Rcp.Wire     src/pic_agentic/rcp/envelope.py: encode_wire, decode_wire and the escape of keys.
--   Rcp.Envelope src/pic_agentic/rcp/envelope.py and crypto.py: RcpMessage, its signature, its room
--                content and body.
--   Rcp.Sequence, Rcp.Dedup   src/pic_agentic/rcp/state.py: SequenceState and DedupStore.
--   Agenda.Model src/pic_agentic/agenda/model.py: the tree of groups and leaves, names, traversal;
--                Agenda.Model.Expand has add and expand.
--   Agenda.Addressing   leaf_at of src/pic_agentic/agenda/engine.py, and assignment to that leaf.
--   Agenda.Budget   src/pic_agentic/agenda/budget.py: check_admission.
--   Agenda.Planner  src/pic_agentic/agenda/planner.py: apply_states, next_actions, account, reconcile.
--   Agenda.Campaign src/pic_agentic/agenda/campaign.py: the persisted record.
--   Agenda.Engine   src/pic_agentic/agenda/engine.py: AgendaEngine. Hashing has the wire hash and the
--                duplicate checks, Gates _submission_block and _may_submit, Observe the folding of
--                observations and the callbacks, Submit the submission of one leaf, Report the compact
--                failures, Run the loop over the steps and tick.
--   Agenda.Reuse    src/pic_agentic/agenda/reuse.py: the registry of reusable runs.
--   Protocol     src/pic_agentic/protocol/simulation.py: states, message types, phases, signal deaths
--                and the lifecycle event.
--   Server.Registry, Server.Events, Server.Service, Server.Wait   src/pic_agentic/server/simulation.py:
--                the projection of events and acks into records, the event log and its condensed view,
--                on_message with ingest_backfill, and wait_for_state.
--   Simclient.Client, Simclient.Ledger   src/pic_agentic/simclient/client.py: the checks on a message
--                and the choice of its handler; the durable record of processed commands with the
--                handlers of hello and submit.
--   Simclient.Control   src/pic_agentic/simclient/client.py: the handler of control requests and its
--     cache of answers.
--   Simclient.Follower   src/pic_agentic/simclient/follow.py: the poll loop of JobFollower.
--   Fleet        src/pic_agentic/fleet.py: fleet_summary and detect_alerts.
--
-- State is passed explicitly: a method that changes its object, or returns a changed copy, is a
-- function to the new state. A loop over the leaves of a deep copy that assigns to them is for_leaves,
-- which carries a state from leaf to leaf. Exceptions are values: an option, a result, or one of the
-- types Attempt, Fault and Tick. A tick's calls of the store are the list of campaigns it saves. The
-- loops over lists and trees are structural. Two loops wait for others and run on fuel: follow (one unit
-- for a poll of the scheduler) and wait_loop (one for a look at the registry). Fuel above the number of
-- the poll that finds the job ended, or of the first look after the deadline, is enough. A step relation
-- (Simclient.Ledger.Steps) has the commands, ends of executions and restarts of a client.
--
-- Parameters stand for what the code only calls: the HMAC of a canonical JSON text, pydantic's
-- validation and coercion, repr and str, the hashes, the clock, and the callables that are injected
-- into the engine (submit, approve, the lookups); the scheduler's answers, the bytes of the output file,
-- the disk's answers and the preparation of a submission at the client. Python's floats are exact
-- multiples of one unit with nan and the infinities: rounding is not modelled. Times are whole
-- microseconds in the engine, and milliseconds in the wait.
--
-- Not modelled: logging, the engine's status and report views, the store's files, the transport, the
-- server's tools, the client's build and its handlers of status, logs and results, rendering,
-- plotting and the analysis programs.
pub mod Common
pub mod Rcp
pub mod Agenda
pub mod Protocol
pub mod Server
pub mod Simclient
pub mod Fleet
