-- ===== src/Lib.antt =====
-- Verification library of the traceroute simulator: models of its core, with theorems.
--
-- The program traces the path of a packet through routers whose routing tables were collected as
-- JSON facts, and runs reachability tests in simulated networks behind a web service. The parts
-- modelled here:
--
-- - Ip: Python's `ipaddress`, as the program uses it, IPv4 and IPv6 (no code of the repository).
-- - Router: the class `Router` of src/core/traceroute_simulator.py. A route is a record of the JSON
--   keys that the code reads; the state of `get_best_route`, a best route with its match length, is
--   an option of a pair, where none stands for no route and length -1. Router/Prefixes has longest
--   prefix matching, on the rounds of Router/Rounds, which the analyzer's routes share.
-- - Simulator: the class `TracerouteSimulator` of the same file: lookups, reachability, next hop.
--   Simulator/Trace has the loop of `simulate_traceroute`: the record Walk holds its local variables
--   and `step` is one round. Simulator/Start has what comes before the loop. Simulator/Walks,
--   Numbering and Ends have the invariant, the bounds and the reasons for the end; Hops has the next
--   hop; Answers and Total have when a path is answered. Simulator/Fallback has the fallback to mtr,
--   with the questions that it asks src/core/route_formatter.py, Endings how its paths end, and
--   Complete what it answers.
-- - Mtr: the answer of `execute_and_filter` of src/executors/mtr_executor.py, a parameter.
-- - Queue: wsgi/services/tsim_queue_service.py. The record Service holds the contents of queue.json,
--   current.json and of the files written to run directories; each method maps it to a new one, in
--   Queue/Requests those that cancel.
-- - Dscp: wsgi/services/tsim_dscp_registry.py, one function per method on the registry file, in
--   Dscp/Status the one that reports it.
-- - Registry: src/core/registry_manager.py. Registry/Files has the guarded read-modify-write that the
--   operations on hosts (Hosts), host leases (Leases) and neighbour leases (Neighbors) share;
--   Registry/Locks has the semaphores and the router locks.
-- - Ports: wsgi/services/tsim_port_parser_service.py. Each regular expression is a function that takes
--   a run of characters after the other; what Unicode says of characters is a parameter.
--   Ports/Stands has what the parts of a specification stand for, beside the loop over them.
-- - Firewall: src/analyzers/iptables_forward_analyzer.py, which decides whether a router forwards a
--   packet. Firewall/Words has Python's text operations, Sets the ipset databases (Membership their
--   lookups), Rules the reading of a rule's text, Matching and MatchSets the criteria of a rule,
--   Lookup and Routes the outgoing interface, Chains the walk of FORWARD and of custom chains.
-- - HostPool: wsgi/services/tsim_quick_job_host_pool_service.py. The record Pool holds the attributes
--   of the service; a part of a method that holds its lock is one step. HostPool/Batch has a batch of
--   jobs, with the executor's callback as a parameter.
-- - Scheduler: wsgi/services/tsim_scheduler_service.py. `leader_round` is one round of the leader's
--   loop, over the queue, the DSCP registry and the host pool, which Scheduler/State puts together.
-- - ReverseTracer: the class `ReversePathTracer` of src/core/reverse_path_tracer.py, which joins a
--   trace from the controller and a trace back to the source. ReverseTracer/Combine makes one path of
--   them, Interfaces adds the interfaces; Drafts, Linked, Routes and Addresses follow the path through
--   the loop, the links and the interfaces.
-- - Prelude: lists, dicts, Boolean tests and exceptions as values.
--
-- The scheduler takes jobs from the queue, gets a DSCP value for each quick job and source hosts
-- from the host pool, and the jobs lease hosts and lock routers through the registry manager. A
-- method that writes a file holds the file's lock from its reading to its writing, so that the
-- writes to one file are a sequence, and a theorem on one call, or on any list of calls, covers
-- what several processes do. `request_cancel` takes the queue's lock twice, once for the queue and
-- once for current.json, and is one step here.
--
-- Python's dicts are association lists in insertion order, with texts as keys. Exceptions are the
-- constructors of Exception; messages and logs are left out. The clock, process ids, locks granted,
-- the result of writing a file, the words printed by `getent hosts`, and what other processes do to
-- a semaphore between two polls are parameters, and so are the traces, the jobs that are done, and
-- what the commands that add hosts answer.
--
-- The loop of `simulate_traceroute` runs while its hop number is at most 30; `walk` takes the
-- number of rounds left, 31 less the hop number, which is exactly the number of rounds that the
-- loop can make, so that no other bound is chosen. A custom chain may call itself, which ends in
-- Python with a RecursionError: the depth of calls that is left is the fuel of the walk of chains,
-- and it is enough where the chains have ranks below it that every call lowers. All other loops go
-- through a list.
--
-- Not modelled: reading and writing JSON, the loading of facts and their conversion to rule texts,
-- running mtr and the printing of paths, the transaction log, thread pools and leader election, the
-- hybrid executor, the older packet filter models, the web handlers, the shell, and the commands
-- that build the simulated networks. Router names are taken from file names and are not empty.
-- Python's limit on the digits of an integer is left out.
pub mod Prelude
pub mod Ip
pub mod Router
pub mod Simulator
pub mod Queue
pub mod Dscp
pub mod Registry
pub mod Firewall
pub mod HostPool
pub mod Mtr
pub mod Ports
pub mod ReverseTracer
pub mod Scheduler
