-- ===== src/Lib.antt =====
-- raftoral: a verification library for the workflow orchestrator on Raft.
--
-- The program replicates state machines with raft-rs. A node (src/raft/generic/node.rs) drives
-- raft-rs: it takes proposals, persists entries in a storage (src/raft/generic/rocksdb_storage.rs),
-- applies committed entries to a state machine, publishes its events and completes the proposals. The
-- state machines are a key-value store, the metadata of the sub-clusters and the workflows.
--
-- Which file models which part:
--   StateMachine              the trait of src/raft/generic/state_machine.rs; serde_json as a parameter
--   Kv                        KvStateMachine of the same file; Kv/Runtime src/kv/runtime.rs
--   Management/StateMachine   src/management/state_machine.rs: ManagementStateMachine and its commands
--   Management/ClusterManager src/management/cluster_manager.rs: the four decide_ functions
--   Management/Runtime        src/management/runtime.rs: the event observer; its children Start (the
--                             constructors) and Commands (the operations and the actions of the
--                             cluster manager)
--   Workflow/StateMachine     src/workflow/state_machine.rs: commands, checkpoint queues, snapshots
--   Workflow/Error, Ownership, Registry
--                             the files of these names in src/workflow
--   Workflow/Runtime          src/workflow/runtime.rs: waiting for events and execute_owner_or_wait; its
--                             children Checkpoints (set_checkpoint, src/workflow/replicated_var.rs),
--                             Execution (the observer, execute_workflow, the wait of
--                             src/workflow/context.rs) and Start (the constructors)
--   Raft/Types, Raft/RocksDb  the messages and the database, as parameters with laws
--   Raft/Memory               a database in memory that satisfies those laws
--   Raft/RocksDbStorage       src/raft/generic/rocksdb_storage.rs: RocksDBStorage; its child
--                             RaftStorage is the part that raft-rs calls
--   Raft/Node                 src/raft/generic/node.rs: RaftNode; Construction, Proposals, Mailbox
--                             (handle_raft_message and the run loops), Entries (committed entries and
--                             apply_conf_change), SnapshotCreation (maybe_create_snapshot), Followers
--                             (check_follower_progress) and OnReady (on_ready)
--   Raft/ProposalRouter       src/raft/generic/proposal_router.rs: ProposalRouter
--   Raft/Schedule             what a runtime sees of its node and its router, as a schedule
--   Raft/EventBus, Transport, ClusterRouter
--                             the files of these names in src/raft/generic, over tokio as a parameter
--   Bootstrap                 src/grpc/bootstrap.rs, which src/http/bootstrap.rs repeats
--   Grpc                      src/grpc/server.rs: GrpcServer and its three calls
--   FullNode                  src/full_node/mod.rs: how a node joins a cluster
-- The other children of these modules hold theorems, the modules called Tests concrete instances.
--
-- How the state is modelled: a struct is a record, and a method that writes through `&mut self`
-- returns the new state with its result. A method that may fail in the middle is an action, which
-- keeps what was written before the failure. A HashMap is an association list, whose order stands for
-- the order of iteration. Texts are lists of bytes. Numbers are natural numbers, with the wrap of
-- 32-bit and 64-bit counters written out. Locks, logging and metrics are left out. The time, the random
-- id of a proposal and its completion channel are arguments. Loops are recursions on lists or on the
-- number of rounds; the wait of a proposal for a leader runs on fuel 9, which its theorem shows to be
-- enough.
--
-- What the other tasks and nodes do meanwhile is an argument. A runtime runs against a schedule, the list
-- of what happens to its local state machine from now on: entries that are applied, whose events its
-- subscription gets or misses, timers, closed and dropped channels. A wait takes the schedule up to
-- what it waits for, and gives none where that never comes. The router's retries see the state that the
-- other tasks left at each round.
--
-- Parameters: serde_json (reading back what was written gives the same value up to the order of
-- maps), RocksDB (a read after a successful write sees it; every call may fail; a stored value is
-- the message or number itself, without its bytes), raft-rs and the
-- transport of the node, and the operations on f64.
--
-- Not modelled: of the full node, the start of a first node and the services for workflows; the proxy
-- runtime, the HTTP and sidecar servers, the clients, WebAssembly, the command line, and generated
-- code; of the storage, the in-memory one of raft-rs.
pub mod Prelude
pub mod StateMachine
pub mod Kv
pub mod Management
pub mod Workflow
pub mod Raft
pub mod Bootstrap
pub mod Grpc
pub mod FullNode
