-- ===== src/Lib.antt =====
-- A verification library for the C++ kernel of starnet, a message-driven server framework.
-- Paths below are from the root of the repository.
--
-- The program: services are Lua scripts, each with a message queue; worker threads take services
-- from a global queue and hand their messages to Lua; a timer thread drives a timing wheel that
-- sends RESPONSE messages; a socket thread turns bytes into messages, which netpack cuts into
-- packets, and keeps what services send until it can be written; lua-seri turns Lua values into
-- bytes; sharedata keeps tables for all services.
--
-- Files:
-- Common and its children: names, tests, lists and masks that the others share.
-- Timer: src/starnet_timer.cpp. The arrays of linked lists are functions to lists of nodes; a
--   function that holds the spinlock is one step, and the windows in which timer_execute gives
--   the lock away, like what is added between two ticks, are arguments. The unsigned clock wraps at 2^32. timer_execute has a fuel of 2
--   rounds, shift_loop of 4; the theorems show that neither runs out. Place says where a node is
--   put, Carry how that changes with the clock, Shift and Execute follow the list of waiting
--   nodes through a tick, Agenda is the abstract timer, Update, CatchUp and OnTime compare the two.
-- Monitor: src/starnet_monitor.cpp, for a worker and the monitor thread in turn.
-- Msg: include/starnet_msg.h. Mq: src/starnet_mq.cpp, with the loop on the overload threshold on
--   a fuel of the queue's length, which is enough up to 2^30 messages. Handle: src/starnet_handle.cpp,
--   where the lock of the map makes each call one step.
-- Sched: Send, NewService and KillService of src/starnet.cpp, src/starnet_worker.cpp, the locks
--   of src/starnet_mq.cpp and the sleep of src/starnet_start.cpp as tasks that interleave, a step
--   for each lock or atomic access, the calls of OnExit among them. Exit counts who exits. What OnMsg does is left open: any thread may call Send,
--   KillService or NewService at any time. Steps has the step relation, Claims and Safety the
--   invariants, Script runs a given interleaving, Races, Stranded and Late show interleavings
--   that go wrong. Spurious wake-ups and the exit flag are not modelled.
-- Netpack: lualib-src/lua-netpack.cpp, and the loop of lualib/starnet.lua that takes the packets
--   out. An fd is not negative, the size given to lfilter is that of its buffer, memory does not
--   run out, and no handler touches the queue. push_more has the length of its bytes as fuel, drain
--   the capacity of the ring: both are enough. Dispatch is the loop in Lua,
--   Ring is the ring as a list, Partial the table of
--   half packets, Stream, Resume and Filter one call, Reads and Chunks all calls, RoundTrip lpack.
-- Service: the hand-over of messages to Lua in src/starnet_service.cpp, with inet_ntop a parameter.
-- Seri: lualib-src/lua-seri.cpp on a machine that keeps the low byte first. Value has the Lua values,
--   Write the writer, Read the reader, Call the calls from Lua. The writer recurs on the value; the
--   reader has a fuel of three for each byte and one, which Fuel shows to be enough. Spec says
--   what a value is as bytes, Pack and Refuse compare the writer with it, Bytes, Scalar, Rounds,
--   RoundTrip and Frame read back what was written. Cyclic tables are not values, and the reader has the
--   memory and the Lua stack that it asks for.
-- Sharedata: the store of src/starnet_sharedata.cpp and the cache in
--   lualib/starnet/sharedata.lua, with the tables as values of any type. Table has the hash part:
--   how Finish builds it, and LookupHash, with a fuel of one more than the slots, which is enough
--   as a rank falls along each chain. Chain and Insert have the invariant, Slots counts the empty
--   slots, First and Second follow the two passes, Finish has both, Lookup compares with a list
--   of pairs. Parts has
--   the whole table, and conv_table and push_table of lualib-src/lua-sharedata.cpp. A Lua table is
--   the list of what lua_next yields with any result of lua_rawlen, and conv_value is an argument,
--   for which Nested gives conv_value with conv_table again, as deep as tables are nested. Conv,
--   Place and Index follow a table in, Iterate, Copy, Deepcopy and Export out again by NextKey,
--   with a fuel of the sizes of both parts and one; Endless shows where no fuel is enough. Sizes
--   are below 2^31.
-- Socket: src/starnet_socket_server.cpp, include/starnet_conn.h, and CloseConn of src/starnet.cpp.
--   The maps are functions of the fd; what read, write, accept, epoll_wait and getsockopt give is an
--   argument, and epoll_ctl changes the epoll set. A call is one step, but in Reuse. Buffer is the
--   write buffer of a connection:
--   Sent runs it, Flush, Order, Send and Runs follow the bytes, Waits says when some are left. Server
--   has the operations on connections, Open the making of connections, Read the loop of ReadData, with a fuel
--   of the bytes, pieces and results there are to read and one, which is enough, Handlers the event loop,
--   UDP and closing. Ops has runs of whole operations; Events, Keeps, Fresh, Asked, Handled, Looped
--   and Armed follow what is watched. Stuck, Connecting and Reuse show data that is never written,
--   Reuse with SendBuffer in the midst of NotifyClose. Address packs the addresses of UDP. Left out:
--   SetNoDelay, the eventfd, shutdown, and the making of sockets.
--
-- Not modelled: the Lua machine and its library, system calls,
-- configuration, logging, memory accounting, daemon and environment code, and the Lua binding.
pub mod Common
pub mod Timer
pub mod Msg
pub mod Monitor
pub mod Mq
pub mod Netpack
pub mod Handle
pub mod Sched
pub mod Seri
pub mod Service
pub mod Sharedata
pub mod Socket
