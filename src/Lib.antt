-- ===== src/Lib.antt =====
-- A verification library for the agent kit of the orchestrator: the Python programs below .agent that
-- schedule the tasks of agents, guard what an agent may do, carry messages between agents and the human,
-- and keep the tree of ideas of an optimisation run.
--
-- Parts, and how they interact
--   A plan of task cards is run by the DAG runner; a plan drawn as a diagram is divided into waves by
--   the wave dispatcher; an auction assigns an agent to a task. A long-running daemon takes requests
--   over a socket, keeps its tasks, traces and locks in a database, and asks the capability matrix
--   before it does what only some roles may. The harness runner asks the same matrix and then starts
--   another agent's program in a sandbox. The context bus holds objects that agents share, and the
--   inbox holds the messages of the human. A run that searches for improvements keeps its ideas in a
--   tree on disk, changes it by single commands, and merges the branches that score better.
--   A plan is put to a debate of three answers of a language model before it is carried out, and a
--   diagram's nodes are also started one by one as what they depend on is completed. Scripts reach other
--   services by a session that tries again in other ways.
--   A squad of agents has a hierarchy, which is checked before a task is handed down in it; when tests
--   fail, patches of a language model are tried in worktrees, and the ones that fail are registered as
--   dead ends.
--
-- Files (paths from the repository's root)
--   Prelude       names passed on, Boolean tests, lists, dictionaries, texts, integers
--   Capability    .agent/scripts/permissions/capability_check.py: load_matrix, _scope_matches, check.
--                 Scope: what a scope covers. Grants: what check grants
--   Dag           .agent/scripts/orchestration/dag_runner.py: detect_cycles. Run: the model names, the
--                 scheduling loop as `turn`, the end of execute_task as `finish`, and the step relation
--                 of both. Graph, Search, Cycles: reachability and the search. Statuses, Soundness, Safety,
--                 Progress (Liveness, Blocked), Models: what holds over every run
--   Waves         .agent/scripts/orchestration/wave_dispatcher.py: the loop of parse_mermaid_dag and
--                 get_execution_waves. Degrees, Counting, Removal: the counts. Start, Layers: the waves.
--                 Dispatcher: check_ready_nodes, execute_node and run_jit_dispatcher, with set_state of
--                 .agent/scripts/orchestration/orchestration_session.py. Listing, Waiting: when it waits
--   Arbitrator    .agent/scripts/orchestration/arbitrator.py: _extract_json_block, and the critiques and
--                 resolutions of sages_schemas.py. Consensus: run_consensus, _parse_verdict,
--                 _check_syntax_offline, and apply_dna_to_confidence of dna_utils.py. Extraction,
--                 Blockers, Bounds: the answer's text, what rejects a plan, and the confidence
--   Resilience    .agent/scripts/lib/resilience.py: ResilientSession, its constructor and request. Chain:
--                 its end. Trust: the verification of certificates
--   Auction       .agent/scripts/orchestration/agent_auctioneer.py: is_cross_repo_request,
--                 find_candidates, run_auction. Ranking: the order and the assignment
--   Daemon        Db: .agent/scripts/orchestration/daemon/db.py, the tables of tasks, traces and locks
--                 (Locks, Rows). Gate: _check_capability of daemon/server.py, which shares the matrix
--                 with Capability. State, Server: handle_client, its actions, and the end of a background
--                 execution (Runs, Authority, Draining, Exclusion), over the tables of Db
--   Harness       .agent/scripts/harness/harness_run.py. Manifest: _validate_entry, load_manifest,
--                 get_manifest_entry (Validation). Env: _build_sanitized_env. Limits: the rlimits. Launch,
--                 Run: run. Enforcement, Accounting: what it starts and what it reports
--   Bus           .agent/scripts/context/bus_manager.py: push, pull, delete, clear,
--                 get_objects_by_type, clean_author (Identity, Map)
--   Inbox         .agent/scripts/communication/inbox.py: validate_entry, append_entry; Reading:
--                 read_entries, ack_entry; Fragment: strip_for_prompt. Validation, Delivery: what is written
--                 and read. Division, Loss: how the two divide the file into lines, and what that costs
--   Arbor         .agent/skills/arbor-agent-tools/scripts/arbor_state.py: the tree, next_child_id and
--                 is_improvement. Commands: cmd_add, cmd_update. Walks: cmd_prune, cmd_propagate. Record:
--                 parse_score, cmd_record, branch_name, cmd_worktree. Meta: parse_scalar, cmd_meta,
--                 apply_eval_meta, cmd_eval. Merge: cmd_merge. Check: cmd_check. Sessions: all commands in
--                 any order. Naming, Fresh: the names of new nodes. Shape, Growth, Keeping: what a sound
--                 tree is, and that commands keep it. Marking, Children, Pruning: the walk down. Noting,
--                 Upward: the climb. Checking: what the check finds. Merging, Effects: what is merged
--   Squad         .agent/scripts/orchestration/squad_schemas.py and squad_orchestrator.py: validate_integrity,
--                 build, the tools and answers of management roles, _find_agent_by_keyword. Plan,
--                 Integrity, Delegates: the check, by the one of Dag. Healing: _verification_loop and
--                 _tree_auto_heal, with run_isolated_worktree of .agent/scripts/analysis/ghost_prototyper.py
--                 over the registry of DeadEnds. Repair: what it leaves behind
--   DeadEnds      .agent/scripts/orchestration/dead_ends.py: normalize_code, log_dead_end, is_dead_end,
--                 clear_dead_ends. Registered: the registry as a set. Comments: what is cut out of a line
--   The modules named Samples hold tests and small states at which the theorems apply.
--
-- How the code is translated
--   A record stands for a class or for the mapping that a JSON or YAML file holds, with an Option
--   for each key that may be missing; the parsers themselves are left out, and a file that they
--   refuse is a constructor. A dict is an association list in insertion order. Exceptions are none,
--   or constructors of a result type. State is passed on explicitly; where several actors change it,
--   their actions are a data type or a step relation, and a run is a sequence of them in any order.
--   What the process finds outside (the clock, the environment, hard limits, the outcome of a spawn,
--   whether a file can be saved) is a record named World. Parameters are: JSON values beyond the
--   fields that the code reads, the regular expressions and datetime.fromisoformat, json.loads and
--   json.dumps of the inbox, str.lower of the auction, sha256, shutil.which. For the idea tree: the
--   order of scores and their printing, the matches of the score patterns, json.loads, SHA-1,
--   fnmatch, the answers of git and of the evaluation command. For the debate: the removal of
--   <think> blocks, what json.loads makes of an answer, and floats, with their order, decimals and
--   arithmetic. For requests: the network, the answers of the gateway and of the browser, fnmatch,
--   base64, str.lower. For the JIT dispatcher: the ids of new sessions, and in which turns the state
--   can be read. For dead ends: str.lower. For the repair of tests: the committed files, the outcome
--   of git and of the tests, and the hypotheses of the language model.
--
-- Bounds and fuel
--   detect_cycles has as much fuel as there are nodes and one more, get_execution_waves as well; the
--   theorems about them say that they return. The walk of cmd_prune has the largest depth of a node
--   and one more, the climb of cmd_propagate the depth of its node and one more: in a sound tree
--   each child stands one level below its parent. The printer of numbers has the number itself and
--   one more. A request has three attempts, and the theorem about it says that they are enough; the
--   JIT dispatcher, which may wait for ever, has any number of turns. Replacing in a text, and the
--   removal of block comments, have its length and one more. The check of a hierarchy has as many
--   agents and one more. Everything else is structural. Times are natural numbers of one unit, which
--   are added and compared only. The code has no arithmetic of fixed width.
--
-- What is not modelled
--   Of the idea tree: the views and reports for a reader, the prompt of an executor, parse-log and
--   the warnings on a hypothesis. Child ids are read in ASCII digits only. A trunk_branch that is no
--   text stops cmd_merge at once in the model; the code stops when it calls git. A cmd_eval with an
--   eval_timeout that int() refuses is left out. Of the debate: the prompts, the loading of plans
--   and rules, the writing of the verdict. Of requests: how the gateway and the browser are called.
--   Of the squad: the scan of agent files, the way of a task from the CTO to a lead, the parallel
--   tasks, and dry runs. Printing and logs, argument parsers, sockets and signals, the prompts and
--   answers of language models, and the content of files that the code only copies. In the daemon a
--   handler runs to its end before another one starts, and the writes that an engine makes while it
--   runs are left out. Concurrent writers of one file are left out. The services in Go, the web
--   pages and the Python programs that only report, format or call a language model have no file
--   here.
pub mod Arbitrator
pub mod Arbor
pub mod Auction
pub mod Bus
pub mod Capability
pub mod Daemon
pub mod Dag
pub mod DeadEnds
pub mod Harness
pub mod Inbox
pub mod Prelude
pub mod Resilience
pub mod Squad
pub mod Waves
