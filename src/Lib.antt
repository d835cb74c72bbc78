-- ===== src/Lib.antt =====
-- Blitzwing: a swarm of hosts that serve a language model together, each with a range of its layers.
--
-- The mother (the orchestrator) keeps the registry of hosts. A contributor joins: the registry
-- reserves the high end of the largest online host's range and notes a plan for it. When the
-- contributor is ready, the donor's shard manager is told to reload with the smaller range, and the
-- contributor goes online with the reserved one. Heartbeats keep hosts alive, a host that leaves
-- gives its range back to a neighbour, and reapers remove hosts that are silent. The swarm map is
-- the ordered list of the online hosts' ranges; chat requests are served along it, and the price of
-- a request is paid out to the hosts by the layers that they hold. The discovery service tells
-- clients which mother serves which model.
--
--  * Base: Python's integers, texts, dicts and exceptions. Texts are lists of code points, and the
--    texts at hand are ASCII. `Exec` is code that changes a state and may raise: what was written
--    before the exception stays.
--  * Registry (orchestrator/app/registry.py): `SwarmRegistry` is a record of its fields and of the
--    file that `persist` wrote last. Range and Address hold the parsers of texts, Host the records,
--    persistence and accessors, Donor and Join the reservation, Ready the hand-over, Leave the
--    departure, the reclaim and the reapers. A method is a function of the same name from the
--    registry to a result and the registry after it; `Env` is what a call finds around it (clock,
--    new id, disk, shard managers). A held `block_indices` is the pair that `parse_range` reads.
--    `mark_ready` is two locked steps, `ready_begin` and `ready_commit`, with the reload between
--    them. Cover counts the online hosts of a layer, Sound is the invariant with a child module per
--    operation, Reach the registry as a transition system in which a call is one step,
--    Losses two calls and the layers that they leave with fewer hosts, Reclaim the departure of an
--    online host.
--  * Swarm (orchestrator/app/swarm_map.py): Manifest holds `SwarmManifest` with its queries, Live
--    the probes and reports, Complete what `is_complete` accepts, Tiling chains of sorted
--    spans, Reached the manifest of a sound registry.
--  * Payout (orchestrator/app/hedera_payouts.py, hedera_escrow.py, config.py): Plan holds the plan
--    and the prices, Redistribute the escrow path and the direct transfer, Amounts the
--    sums, Receipt what the receipt says.
--  * Discovery (discovery_service/app.py): the table, its handlers and the admin token; Url is
--    `unquote`, Laws what requests do to the table.
--  * Chain (shard_manager/http_chain.py, local_runner.py): Hosts orders the hosts of a manifest,
--    checks them and finds their URLs, Forward runs the layers, Routes tells
--    which hosts have a URL and what they answer, Whole compares the chain with the
--    model in one place, Loop is the loop over the tokens.
--  * Shard (shard_manager/app.py): Command is the command line of a Petals server, Process the
--    `ShardManager` over the processes of its machine, Routes the handlers and the two cached
--    runners, Supervised which processes run, Caches what a reload and a start leave behind. `OsEnv`
--    is what a call finds: whether a process can be started and whether one ends when it is told to.
--    Heartbeat (shard_manager/heartbeat.py) is what a contributor reports to the mother.
--  * Engine (orchestrator/app/engine.py): the Petals client of the mother, its peers, loads and
--    retries; Laws is about the peers, the token cap, the retries and the background reload, and Stream
--    about the deltas of a streamed generation.
--  * Contributor (shard_manager/inference.py): `ContributorInference`, the Petals client of a
--    contributor, with its peers, its load and the wait for a route; Log finds the local server's id
--    in its log, Generate holds the generation and the client that the module shares, Loaded what a
--    load leaves, Routable the polls, Peers a manifest that comes again, Again the generation
--    behind it, LogLaws the search in a log, Restarts logs of several starts, Shared the warm-up.
--  * Peer (orchestrator/app/peer_verify.py): the reachability checks before a hand-over.
--  * Ens (orchestrator/app/ens_client.py): the requests to the ENS service, the verification cache,
--    and the queue of pending operations; Passes holds the passes over the hosts and the syncs (its
--    child Keeps what they keep), Queue is about the replay and the cache.
--  * Api (orchestrator/app/main.py): `Mother` is the state of the handlers, `World` what a request
--    finds. Hosts holds join, ready, heartbeat, leave and a round of the reaper, Chat the payout and
--    chat handlers, Stream the chunks of a stream, Startup the start and the reports; Kept, Safe,
--    Ready, Reported, Probed, Watched and Served are about the registry under the ENS syncs, the ready
--    handler, heartbeats, probes, manifests and chats, and sequences of requests, Started about what a
--    start leaves behind, Chat.Paid about the receipts.
--  * Visible (orchestrator/app/swarm_verify.py): the polls of the Petals DHT before a hand-over.
--  * Examples: runs at concrete inputs.
--
-- Fuel: `emit`, the digits of a number, runs on the number plus one, more than it has digits.
-- The loop over the tokens runs on its rounds and the background reload on its attempts, as in the
-- code. Every other loop is structural.
--
-- Parameters: the clock, uuids, the disk, the shard managers' answers, the Hedera network, the ENS
-- service, the model's layers and sampler, the remote hosts and the Petals DHT. Not modelled:
-- sampling and tokenising, the CLI's copies of the shard manager, the contracts, the web UI and the
-- Node packages. The directory petals is a copy of the Petals library.
pub mod Base
pub mod Registry
pub mod Swarm
pub mod Payout
pub mod Discovery
pub mod Chain
pub mod Visible
pub mod Shard
pub mod Peer
pub mod Engine
pub mod Contributor
pub mod Ens
pub mod Api
pub mod Examples
