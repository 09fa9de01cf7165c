-- ===== src/Lib.antt =====
-- A verification library of the Python packages of Ameme: the synchronisation protocol of its devices,
-- the protocol and the channel between an agent and the local node, the policy of the agent interface, and the
-- store of events behind it.
--
-- The parts and the files that model them:
--
--   packages/sync-protocol/src/ameme_sync_protocol/model.py
--     Json.antt: the JSON values of a payload, their sorted and printed form (`_freeze`, `canonical_json`).
--     Sync/Envelope.antt: `Envelope`, its checks in `__post_init__`, `to_dict` and the two digests. A `Draft` is
--     an envelope as it is given to the constructor, an `Envelope` one that passed the checks.
--   packages/sync-protocol/src/ameme_sync_protocol/simulator.py
--     Sync/State.antt: the attributes of `Peer` as a record, with the reads and writes of them, the receipt, the
--     audit entry and the record of a denial.
--     Sync/Semantics.antt: `_apply_semantics`, one function for each operation behind its guards.
--     Sync/Receive.antt: `_drain`, `receive` with one function for each branch, and `emit`.
--     Sync/Project.antt: `_project_event`, the state of an event made from its revisions; what holds of it is below.
--     Sync/Report.antt: `state_snapshot`, `partial_reasons`, `conflicts`. Sync/Report/Documents.antt: the documents that
--     the digests of snapshots are taken of.
--     Sync/Harness.antt: `DeterministicSimulator`: `emit`, `deliver`, `broadcast`, `set_online`, `replay_offline` and
--     `_track_tombstone`; what holds of a delivery is in the files below it.
--     Sync/Harness/Evaluate.antt: its constructor and `evaluate`; what the outcome says is in
--     Sync/Harness/Settled.antt.
--     Below Sync/Receive: what holds of a delivery. Sync/Receive/Branches.antt splits a proof about `receive` into
--     its branches, and Sync/Receive/Drain.antt a proof about `_drain` into its rounds. `receive_all` of
--     Sync/Receive/Deliveries.antt is a list of deliveries, one after the other.
--   packages/agent-local-node-protocol/ameme_agent_local_node_protocol/protocol.py
--     Node/Checks.antt: the checks of single values, canonical bytes and digests. Node/Payload.antt: the payload of
--     each operation. Node/Request.antt: `validate_request` and `authorize_request`. Node/Response.antt:
--     `validate_response`. Node/Lines.antt: the parsers of lines. Node/Ledger.antt: `ReplayLedger`. Below Request,
--     Lines and Ledger: what holds of them. Node/Codec.antt: what the protocol takes from outside.
--   packages/agent-local-node-protocol/ameme_agent_local_node_protocol/channel.py
--     Channel/Checks.antt: the checks of single values, keys and proofs. Channel/Pairing.antt: the pairing material.
--     Channel/Hello.antt: the two greetings and the session key. Channel/Frames.antt: the frames of requests and
--     responses, and below it what holds of them. Channel/Secrets.antt: what the channel takes from outside. The
--     channel calls the parsers of lines of the protocol, and gives their violations a code of its own.
--   services/ameme-mcp-mock/ameme_mcp_mock/event_store.py and store.py
--     Store/State.antt: `EventNodeScope`, an event, a revision, the queue and the keys of the state.
--     Store/Capture.antt: `get_event`, `create_event`, `append_revision`.
--     Store/Retract.antt: `undo_capture`, `set_policy_blocked`, `enqueue_delivery`, `queued_count`.
--     Store/Visible.antt: `visible_events`, its loop and its sort.
--     Store/Roundtrip.antt, Revising.antt, Undoing.antt, Listing.antt, Permitted.antt, Answering.antt: what holds of
--     these methods.
--   services/ameme-mcp-mock/ameme_mcp_mock/core.py
--     Policy/State.antt: grants, challenges, packs and activity, in memory and as saved. Policy/Calls.antt: a call that
--     returns or raises, and its steps. Policy/Grants.antt: `_authorize`, `_deny`, `_expire_if_needed`, `_activity` and
--     the checks of arguments. Policy/Pairing.antt: `_begin_pair`, `_approve_pair`, `_revoke_pair`. Policy/Budget.antt:
--     `_fit_context_item` and the loop of `get_context` that fills a pack. Policy/Recall.antt: `recall`, which calls
--     `visible_events` of the store. Below them: what holds of them. The scope
--     that `_event_scope` makes is the one of the store.
--   Base.antt and the files below it: Python's dict, set, str and int as the code uses them, and results that
--   may be an exception.
--   Platform.antt, Node/Codec.antt, Channel/Secrets.antt and `Times` of Policy/State.antt: what the code takes from
--   outside, as parameters: SHA-256, HMAC, base64, UTF-8, the reading of JSON, dates and IP addresses, `str` of a
--   container, and random ids. Nothing is assumed of any of them but what a theorem names as its condition.
--
-- How the code corresponds to the model. A method that changes an object takes the state and returns it beside
-- its result. Where the code may raise after a change, the changed state is returned beside the exception; a
-- method of the store raises only before its first change, and there the exception is the whole result. A dict
-- is an association list in insertion order. The time of a delivery is a tick, the argument `now` of a peer and the
-- attribute `tick` of the simulator; the store takes its times as texts, and reads those that it compares by a
-- parameter (`Texts`), as it does `casefold`. The random part of an id, `uuid4().hex`, is an argument. Python's own
-- integers need no bound.
--
-- Loops. All are structural recursions but the `while` of `_drain`, which takes fuel: one round for each envelope
-- that waits and one to see that none is left; `drain_all` is the call with that fuel. The digits of a number
-- (`decimal`, Python's `str`) take fuel too, one unit more than the number, which is more than it has digits. The
-- search of `_fit_context_item` takes as many rounds as the content has characters, and one.
--
-- Not modelled. The records of results that the sync simulation prints (`to_dict` of the receipt and of the result
-- of a simulation); the conformance vectors and scenarios, which are fixed inputs; the file of the store (`save`,
-- `close`, the seed). A text of a JSON value holds no surrogates, and a float stands as the text of it;
-- the plain `ValueError` of `json.loads` on an integer of more than 4300 digits is not told apart from its other errors.
-- The clock is read once in a call of the policy layer, and an event has one source, as `create_event` writes it.
-- Of the policy layer, `capture`, `feedback`, `status`, `call` and the rest of `get_context`; its calls have arguments
-- of the types that the schema of the tool gives them. Of the rest of the repository, packages/core-reference,
-- packages/ai-processing-reference and the adapters of services/ameme-mcp-mock over processes and sockets stand outside
-- this library, as do the Kotlin application and the TypeScript gateway.
pub mod Base
pub mod Json
pub mod Node
pub mod Channel
pub mod Platform
pub mod Sync
pub mod Store
pub mod Policy
