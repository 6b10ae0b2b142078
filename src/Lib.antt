-- ===== src/Lib.antt =====
-- A model of hcproxy, an HTTP CONNECT proxy for Linux.
--
-- The proxy accepts a client, reads one CONNECT request from it, resolves the host, connects to it,
-- and forwards bytes both ways. Each step has an event loop of its own: a thread around epoll, with
-- a list of handlers ordered by deadline.
--
-- Files and what they are about:
--   Common      shared names; a run's outcome (src/check.h: a failed CHECK aborts), tests, sequences
--   NodeList    List and Node of src/list.h and src/list.cc; add_tail is AddTail, erase is Erase
--   Epoll       EPoll of src/epoll.h and src/epoll.cc; epoll_add, epoll_remove, epoll_modify, wait
--   Bits        HasBits of src/bits.h
--   EventLoop   EventHandler and EventLoop of src/event_loop.h and src/event_loop.cc; inc_ref,
--               dec_ref, add, remove, modify and refresh are the methods of these names;
--               EventLoop/Create has the constructor (new_loop), EventLoop/Cycle one round of Loop,
--               and EventLoop/Functions Schedule, ScheduleOrRun and PopFunc with the pipe
--   Connector   src/connector.cc: connect_async is ConnectAsync, finish, on_event and on_timeout are
--               the methods of ConnectEventHandler; connect of Connector/Start is Connect
--   Parser      src/parser.cc: ends_with is EndsWith, read is ParseEventHandler::Read;
--               finish_parse, parse_event and time_out_parse of Parser/Events are Finish, OnEvent and
--               OnTimeout, and parse_request of Parser/Start is ParseRequest
--   Forwarder   src/forwarder.cc: init, write, write_from and read_to are the methods of Buffer, and
--               Forwarder/Link has LinkEventHandler: close_link is Close, terminate is Terminate,
--               forward_from_other is ForwardFromOther, link_on_event and link_on_timeout are OnEvent
--               and OnTimeout, and round_event of Forwarder/Link/Life is a round of Loop with one
--               event of a link; new_links of Forwarder/Start is New, and forward_tunnel of
--               Forwarder/Entry is Forward
--   Dns         one entry of the cache of src/dns.cc and its task: resolve is Resolve; start, store,
--               deliver and next_time are the parts of ProcessCacheEntry between two changes of the
--               lock; rotate is its loop over use_count. Dns/Once lets them interleave. Dns/Lookup
--               has ResolveSync.
--   ThreadPool  Schedule and Next of src/thread_pool.cc
--   Proxy       src/hcproxy.cc: is_allowed_port is IsAllowedPort of RunProxy; on_request, on_resolved
--               and on_connected are its callbacks
--   Logging     LOG and its stream, of src/logging.h and src/logging.cc: log, put and flush. Only
--               Acceptor uses it: elsewhere a failed CHECK is the fatal outcome, and other log
--               statements, which leave errno as it was, are left out.
--   Addr        IpPort of src/addr.h and src/addr.cc, and SockError of src/sock.cc
--   Acceptor    src/acceptor.cc: open_acceptor is the constructor, accept is Accept
--   Tests       runs at concrete inputs
--
-- State. An object that the source reaches through pointers is an entry of a store, named by an
-- address; null is 0. A handler that has been deleted is marked as freed, and its use is fatal like
-- a failed check, so that a run that ends in ok uses no freed handler. Times and sizes are natural
-- numbers; where the source computes with size_t and the result may wrap, that is written out.
--
-- The system's part is a parameter: epoll_ctl, epoll_wait, read, write, splice, pipe, fcntl,
-- socket, setsockopt, getsockopt, connect, accept4, close, shutdown, getaddrinfo, the formatting
-- functions of the C library and the clock. What is assumed of them is a named hypothesis:
-- epoll_ctl, splice, pipes and F_SETPIPE_SZ do as their documentation says (Epoll.IsDocumented,
-- Forwarder.Transfer.IsDocumented, EventLoop.Functions.Queue.IsDocumented,
-- Forwarder.Start.Buffers.IsDocumented), epoll_wait is not interrupted (Epoll.Room.CanWait), read
-- returns no more bytes than it was asked for (Parser.Reading.IsBounded), what a tunnel has still
-- to receive is finite (Forwarder.Link.Flow.IsFinite), close and FIONREAD succeed on an open
-- descriptor, shutdown succeeds or reports ENOTCONN (Forwarder.Link.Flow.Calls), getsockopt
-- succeeds on an open socket (Addr.CanTell), the clock does not run back. That F_SETPIPE_SZ,
-- setsockopt in ConnectAsync, or socket fails is modelled. The descriptor of a link carries whether
-- it is open (fd_open of Forwarder.Link.Link), and closing one that is not open is fatal.
--
-- What EventLoop assumes of its handlers. Of the subclasses of EventHandler the event loop knows a
-- record of functions (EventLoop.Cycle.Callbacks). Where a theorem about the rounds of Loop is
-- about any handlers, it assumes of them: for the events (EventLoop.Cycle.Delivery.IsSteady), that
-- OnEvent of a registered handler of which a reference is held, and a function from the pipe, run
-- to their end in any sound loop, leave it sound, and release no reference but their own; and for
-- the deadlines (EventLoop.Cycle.Expiry.Retires), that OnTimeout takes its handler out of the loop.
-- Connector/Delivery and Connector/Expiry show that connection attempts are such handlers; the
-- links of a tunnel, which need their tunnel for it, have theorems of their own in Forwarder/Link.
--
-- Loops. The loop over due handlers, the loop of Read and that of ForwardFromOther run on fuel, and
-- end in stuck without it. The number of registered handlers and one is enough for the first, and
-- the number of free bytes and one for the second. For the third it is one more than twice the bytes
-- still to be received, the bytes in the pipe, and one for each direction that is open; for OnEvent
-- both ways are counted. The fuel of the loop over use_count (src/dns.cc) is enough for two turns of
-- the ring of addresses. Accept ends in stuck where the list of answers of accept4 does.
--
-- Not modelled: the map of the cache and getaddrinfo itself (src/dns.cc), the threads of the thread
-- pool and its destructor (src/thread_pool.cc), signals, limits and the accept loop of RunProxy
-- (src/hcproxy.cc), the repetition of the rounds of Loop, and destructors of objects that live as
-- long as the process.
mod Common
pub mod NodeList
pub mod Epoll
pub mod EventLoop
pub mod Bits
pub mod Connector
pub mod Parser
pub mod Forwarder
pub mod Dns
pub mod Proxy
pub mod ThreadPool
pub mod Logging
pub mod Addr
pub mod Acceptor
mod Tests
