-- ===== src/Lib.antt =====
-- A model of libarc, a C++ library of coroutines over epoll: the parts that decide which coroutine
-- runs when (the poller, the locks, the conditions, the event loop and the coroutine dispatcher),
-- the tasks that coroutines return, the sockets, and the HTTP server and client on top of them.
--
-- The parts. An event loop owns a poller (include/arc/coro/poller/epoll.h,
-- src/coro/poller/epoll.cc). A coroutine that has to wait hands the poller an event
-- (include/arc/coro/events): an IO event, a time event, a user event, or a bound event, which
-- cancels another event when it is triggered or when its time comes. The loop tells the kernel
-- what it waits for (the Trim operations), waits (WaitEvents), and resumes the coroutines of the
-- events that the wait returns. Between threads, coroutines travel through the dispatcher
-- (include/arc/coro/dispatcher.h), which has a queue for each registered event loop and wakes the
-- loop by writing to its eventfd, the one that the poller watches for user events too.
--
-- Events.antt has the events as values. A coroutine handle and an address are numbers.
-- Poller/State.antt has the fields of Poller as a record and the operations that only register
-- something; IoEvents, UserEvents and BoundEvents under Poller have the others, Poller/Trim.antt
-- the Trim operations over the epoll instance of Poller/Kernel.antt, and Poller/Wait.antt
-- WaitEvents in the order of its phases. Poller/Registry.antt, Poller/Trim/Reconcile.antt,
-- Poller/Trim/Stale.antt and Poller/Wait/Bounds.antt have the theorems on them; Poller/Count.antt,
-- with Runs and Reach under it, those on the counter of IO events in all states that a sequence of
-- operations leads to, and Poller/Timers/Wake.antt and Sleep.antt those on the time events.
-- EventLoopGroup.antt has the group through which the loops find each other, Locks/Core.antt the
-- locks of include/arc/coro/locks/lock.h with their core and awaiter
-- (include/arc/coro/awaiter/lock_awaiter.h), Locks/Handover.antt and Locks/Exclusion.antt their
-- theorems, the latter over the steps of coroutines of any loops in any order.
-- Conditions/Core.antt has the core and the awaiter of conditions
-- (include/arc/coro/awaiter/condition_awaiter.h), Conditions/Waiting.antt the tasks of
-- include/arc/coro/locks/condition.h, Broadcast and Notify under Conditions the theorems on
-- TriggerAll and TriggerOne, and Conditions/Cancellation.antt the tokens that cancel a wait
-- (include/arc/coro/utils/cancellation_token.h). Awaiters.antt has the suspensions of
-- include/arc/coro/awaiter/io_awaiter.h, time_awaiter.h and executor_awaiter.h, ThreadPool.antt
-- the pool of include/arc/utils/thread_pool.h and src/utils/thread_pool.cc, and
-- ThreadPool/Order.antt its theorem. Dispatcher/Queue.antt has CoroutineQueue over an interface
-- for moodycamel::ConcurrentQueue, Dispatcher/Core.antt CoroutineDispatcher, and Rotation,
-- Consumers, Delivery and Departure under Dispatcher the theorems. EventLoop/Production.antt has
-- what the event loop (include/arc/coro/eventloop.h, src/coro/eventloop.cc) hands to the
-- dispatcher, EventLoop/Core.antt its round over poller and dispatcher, EventLoop/Run.antt the
-- rounds of RunUntilComplete (src/coro/task.cc), and Conservation, Held, Moves and Sends under
-- EventLoop the theorems on what it hands over.
--
-- Tasks/Promise.antt and Tasks/Handle.antt have the promises and tasks of include/arc/coro/task.h
-- over the frames of their coroutines. Tasks/Awaiting.antt has what awaiting a task gives, and
-- Tasks/Lifetime.antt the program whose tasks are created, started and destroyed while their
-- coroutines end, with the theorems in Tasks/Steps.antt, Ending.antt and Detached.antt.
--
-- Io/Socket.antt has descriptors and sockets (include/arc/io/socket_base.h, socket.h,
-- src/io/io_base.cc), Io/Transfer.antt the awaiters of Send and Recv, Io/Readiness.antt when the
-- coroutines behind them are resumed, Io/Ownership.antt who closes a descriptor, Io/Acceptor.antt
-- the queue of connections, Io/Retries.antt the loops of include/arc/io/tls_socket.h around
-- OpenSSL, and Io/Persistence.antt what they come to. Io/Tls.antt has the contexts of
-- src/io/ssl.cc and the SSL objects of TLS sockets, and Io/TlsOwnership.antt who frees them.
--
-- Net/Address.antt has the addresses of include/arc/net/address.h, over an interface for the
-- functions of the system library that read, print and resolve them, and Net/Identity.antt their
-- theorem.
--
-- Http/Query.antt, Message.antt, Parser.antt and Print.antt under Http have the end of
-- src/http/http_parser.cc: queries, the callbacks that fill a request or a response, a call of the
-- parser, and the printing of messages. Http/Server.antt has the tables of
-- src/http/http_server.cc, Http/Server/Listening.antt the sockets that it binds,
-- Http/Server/Connection.antt the loop over a connection, and Http/Client.antt the client
-- (include/arc/http/http_client.h). The theorems are in Http/Query/RoundTrip.antt,
-- Http/Callbacks.antt, Http/Framing.antt, Http/Client.antt, and Pipeline and Routing under
-- Http/Server. A header or query map is a list of entries in the order in which they were first
-- set; the order in which std::unordered_map gives them is not specified. Tests has runs at small
-- inputs, and stand-ins for the interfaces.
--
-- Conventions. A call that can throw returns an Outcome: a value, the exception, or `undefined`
-- where C++ leaves the behaviour undefined (a write beyond an array, an invalid iterator, the
-- front of an empty deque, a null pointer) or a loop does not end. After an exception the state is
-- not given. Event identifiers wrap around at 2 ^ 32; `total_io_events_` and the counter of a
-- queue are integers without a bound. A mutex makes an operation one step. The answers of
-- epoll_wait, read, write and the clock are arguments.
--
-- Bounds. `io_events_` has 1024 entries, and beyond them a map takes over; a wait has room for
-- 1024 identifiers, which the loops over timers, user events and bound events check and the loop
-- over IO events does not. The loop of DequeAll has fuel for one round per item. That is enough if
-- a bulk dequeue from a queue with items takes out at least one, which moodycamel::ConcurrentQueue
-- does not promise while other threads add items: the program relies on it, and it is a
-- hypothesis. The loop of DeResigerProducer (EventLoop/Core.antt) does not end while the queues
-- have no room; it has fuel, and is `undefined` without. The loop of TriggerAll has fuel for one
-- round per entry, of which each round takes at least one.
--
-- The loop over a query has fuel for one round per character, and one; each round goes on behind
-- the place where it began. std::to_string has fuel for as many digits as the number counts.
--
-- Not modelled: what coroutines do between their suspensions, logging and the database client. The
-- HTTP parser in the front of src/http/http_parser.cc, libcurl, OpenSSL, std::regex and
-- moodycamel::ConcurrentQueue are not the repository's own: what the code uses of them is an
-- argument, with the laws that a theorem needs among its hypotheses.
pub mod Prelude
pub mod Events
pub mod Poller
pub mod EventLoopGroup
pub mod Locks
pub mod Conditions
pub mod Awaiters
pub mod ThreadPool
pub mod Dispatcher
pub mod EventLoop
pub mod Net
pub mod Http
pub mod Io
pub mod Tasks
pub mod Tests
