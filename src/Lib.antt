-- ===== src/Lib.antt =====
-- A model of the server and the client of Computing-Cluster, with the theorems that make them correct.
--
-- The server (cluster-api/cluster-server.c) hands out the tasks of a user's array to clients over
-- TCP and collects their results. compute_task() fills a handle, init_cluster_server() opens the
-- sockets and starts the thread of the event loop, and stop_cluster_server() waits for it. The event
-- loop answers the broadcasts of clients that look for the server, keeps a table of connections, and
-- moves frames: a client asks for a task (CMD_REQUEST_FOR_DATA), gets one (CMD_TASK), and sends its
-- result (CMD_RESULT), which is also the next request. The task pool says which tasks are not given,
-- with a client, or done; each connection lists the tasks that its client has. If a connection is
-- lost, its tasks go back to the pool.
--
-- The client (cluster-api/cluster-client.c) has an entry for each of its threads. client_compute()
-- fills a handle, init_cluster_client() allocates the entries and their buffers and looks for the
-- server, and the event loop asks for one task for each entry, starts a worker on every task that
-- arrives, takes the signal of a worker that has ended, and sends its result.
--
-- The files:
--   Config              cluster-api/Config.h: constants, commands, RequestHeader.
--   Wire                a header in memory, in the byte order of a host, and htobe32 and be32toh.
--   System/Outcome      how a piece of C ends: a value, exit(), undefined behaviour, or a loop that
--                       ran out of fuel; accesses to memory with their bounds.
--   System/Kernel       the system calls as data, and the kernel, a parameter of every program here:
--                       any function from the calls made so far to their answers.
--   System/Action       statements: they read and write the handle and make system calls.
--   System/Rules        how a property passes through a sequence, a test, a call and a loop.
--   System/Traced       the same for properties that also exclude undefined behaviour.
--   System/Packs        a part of a buffer, read and written.
--   System/Ends         how statements end normally, where the kernel refuses no call.
--   System/Pieces       a buffer that is filled piece by piece.
--   Server/Types        cluster-api/ClusterServer.h: Connection, TaskInfo, ClusterServerHandle.
--   Server/Tasks        "Task Management Routine" of cluster-api/cluster-server.c: get_task_to_send,
--                       push_return_value, drop_resolving_tasks.
--   Server/Connections  "Connection Management": accept_incoming_connection_request,
--                       delete_connection, and what epoll watches.
--   Server/Transfer     read_data_on_connection and put_data_to_connection.
--   Server/Discovery    "Discovery process".
--   Server/Eventloop    server_eventloop, one definition for each handler of an event.
--   Server/Setup        the init and free functions, init_cluster_server, stop_cluster_server and
--                       compute_task.
--   Server/Invariant    the invariant of the handle; Server/Tasks/Owners has the pool's part.
--   Server/Stable       the interface of the proofs about the event loop: what a predicate on handles
--                       needs so that every handler keeps it. Server/Eventloop/Preserves, Sends and
--                       Finish prove that once for all such predicates.
--   Server/Ledger       what the server promises of the tasks, without its tables: the mark of each
--                       task and the steps by which it changes. Its children View, Refines and Loop
--                       say what account a handle stands for and relate the operations and the loop
--                       to the steps, and Operations says what each operation does to the account;
--                       Server/Setup/Account follows it through compute_task.
--   Client/Types        cluster-api/ClusterClient.h: ThreadInfo, ClusterClientHandle.
--   Client/Tasks        "Task Management Routine" and "Computation Routine" of
--                       cluster-api/cluster-client.c: the entries, and the worker of an entry.
--   Client/Transfer     its read_data_on_connection and put_data_to_connection.
--   Client/Connections  how the client connects, and what epoll watches.
--   Client/Discovery    the timer, the broadcast and the replies of servers.
--   Client/Eventloop    client_eventloop, and the steps of the workers between the events.
--   Client/Setup        init_cluster_client, stop_cluster_client and client_compute.
--   Client/Invariant    the invariant: what each entry is doing, and where its packs lie.
--   Client/Entries, Client/Workers, Client/Results, Client/Requests
--                       what the changes of an entry, the start of a worker, the sending of a result
--                       and the sending of the requests do.
--   Delivery            the client's frame of a result, received and stored by the server.
--   Delivery/Task       the server's frame of a task, sent, received and started by the client.
--   Integral            the two programs of integral-computation, which are the library's example:
--                       ComputationServer and ComputationClient are their files, Words and Double
--                       the eight bytes of a double, Trapezoid the rule without a loop; Tasks,
--                       Answers, Results and Exchange follow a task to a worker and a result back.
--   Client/Tests, Tests concrete runs of the client, and of both.
--   Server/Tests        concrete runs, with a scripted kernel in Server/Tests/Script.
-- The children of these modules hold the proofs, and are named for what they prove.
--
-- State and operations. A function of the source that has the handle as its argument is a definition
-- of the same name on `ClusterServerHandle`; if it makes system calls it is an `Action`, which also
-- extends the list of calls made. A descriptor that may be -1 is an `Option`. Indices and sizes are
-- natural numbers, with the wrap-around of size_t and uint32_t written out. An access outside an
-- array, or through a pointer to one, is the outcome `fault`. A call that fails where the source exits
-- is `exits failure`; BUG_ON is `exits bug`. A header that the source does not initialise is a
-- parameter. `Leads` says what holds where a statement ends normally; `Returns` says that it does;
-- `Brings` says what holds where it ends normally, and that it has no undefined behaviour.
--
-- Workers. The user's function is a parameter, a function from the bytes of a task to those of a
-- result. A worker reads and writes the packs of its entry only, so all it does is one step: the
-- result pack is written and the signal is given. Such steps happen before each wait of the event loop
-- and before each event, and which workers take one is any function of the calls made so far, also a
-- parameter. `alive` stands for a thread that has not ended. The cpu mask of an entry is the number of
-- its cpu, and the packs are offsets into the two buffers.
--
-- Fuel. The event loop is given a number of turns, and the loops inside a turn that depend on the
-- network are given fuel; a loop that uses it up has the outcome `hang`. The accept loop is called
-- with one turn more than the table has cells, which is proved to be enough. The loops over the table,
-- the task lists and the tasks recur on their lists.
--
-- Doubles. The example program computes with any type that has the operations it uses, those of
-- Integral/Double. What is relied on is IsDouble: a double has 64 bits, and copying it keeps them. No
-- law of its arithmetic is used, so rounding is what it is: sums are in the order of the source. The
-- loop of integral_thread() has fuel, and any number of turns above the number of points before the
-- end of the interval is enough; that there is such a number is a hypothesis on the doubles.
--
-- Not modelled: logging (cluster-api/logging.c, cluster-api/Logging.h), which is output only; free();
-- and the fields of the handles that only travel to system calls (the threads, the broadcast
-- addresses, the host's name). calloc() is a call of malloc() in the server, since the loop behind it
-- writes the whole block, and in the client for the same reason. The main threads make only calls of
-- epoll_ctl(), and the client's also connects by name, while the event loops run, so the two threads
-- are put one behind the other.
pub mod Base
pub mod System
pub mod Config
pub mod Wire
pub mod Server
pub mod Client
pub mod Delivery
pub mod Integral
mod Tests
