-- ===== src/Lib.antt =====
-- MySylar_Server: a C++ server framework. This library models parts of it and proves what makes them
-- correct.
--
-- Parts, files and code (paths from the repository's root):
-- * ByteArray (Sylar/bytearray.h, Sylar/bytearray.cc, Sylar/endian.h), in ByteArray.antt and its
--   children. It is the buffer in which every protocol of the framework is written and read: a
--   chain of blocks of one size, a position and a size. `Chain` holds the loops over the blocks
--   (`write_loop`, `read_loop`, `seek`, `iovec_loop`), ByteArray.antt the methods (`write`, `read`,
--   `setPosition`, `addCapacity`, `clear`, `toString`, the lists of iovecs), `Fixed` the writeF* and
--   readF* methods, `Varint` the zigzag form and the variable-length integers, `Text` the strings.
--   A method takes the buffer and returns an `Outcome`: a result, the exception out_of_range, a
--   null pointer or an access outside a block. `IsValid` is the invariant, and `Spec` the abstract
--   view: a file of bytes with a position.
-- * LruCache (Sylar/DataStructure/LRU_Cache.h, cache_status.h), in LruCache.antt and its children. The
--   map is the list of its keys, the linked list the list of items; `IsValid` says that both hold the
--   same keys, each once.
-- * HashLruCache (Sylar/DataStructure/LRU_Cache.h), in HashLruCache.antt and its children: LruCaches that
--   share the keys by a hash, which is a parameter, and one status. Its foreach and its prune callback
--   are not modelled.
-- * TimeWheel (Sylar/timer.h, Sylar/timer.cc), in TimeWheel.antt and its children: the ring of slots
--   behind TimerManager. A method takes the time that the source reads from the clock.
-- * Timer and TimerManager (Sylar/timer.h, Sylar/timer.cc), in TimerManager.antt and its children:
--   addTimer, cancel, refresh, reset, getNextTimer, hasTimer, listExpiredCb and detectTimeAnomaly.
--   The timers are a list; the slots of the wheel hold places in it. A callback is a number, and
--   whether onTimerInsertedAtFront is called is part of the result of addTimer. `Runs` has the
--   sequences of calls.
-- * The registry of the name service (Sylar/NodeService/ns_protocol.h, ns_protocol.cc), in NodeService.antt and
--   its children: `NodeSet` for NSNode and NSNodeSet, `Domain` for NSDomain, `DomainSet` for
--   NSDomainSet. A domain holds a map from commands to node sets, and a node set a map from ids to
--   nodes; inet_addr is a parameter.
-- * ServletDispatch (Sylar/HttpServer/servlet.h, servlet.cc), in Servlet.antt and its children: the
--   servlet of a path. Paths and servlets are any types, and fnmatch is a parameter.
-- * Bitmap (Sylar/DataStructure/bitmap.h, bitmap.cc), in Bitmap.antt and its children: words of 14
--   members and their compressed form, in which a run of equal words is a count in digits.
-- * The load balancers (Sylar/streams/load_balance.h, load_balance.cc), in LoadBalance.antt and its children:
--   LoadBalance with its round robin and weighted classes, over items of any type; `Stats` holds the
--   counters of an item, with one slot for each of the last seconds, and `Discovery` SDLoadBalance, which
--   keeps a balancer for each service and follows the reports of the service discovery.
-- * IOManager (Sylar/iomanager.h, Sylar/iomanager.cc, and Scheduler::schedule of Sylar/scheduler.h), in
--   IoManager.antt and its children: the contexts of descriptors, addEvent (IoManager.antt), delEvent,
--   cancelEvent, cancelAll, what idle does with a reported event, and stopping (`Methods`). epoll is a
--   parameter, the record `Epoll`: epoll_ctl may refuse any call, and otherwise changes the interest
--   list as documented. `View` is the abstract state, the tasks that wait, `Represents` ties it to the
--   code's state, and `Steps` has the calls as a step relation. Each call is one step, as the mutex of
--   the context makes it; that another thread resizes the table between the two locks of addEvent is
--   not modelled. Without that the table only grows, so that the context which epoll points to is the
--   one in the table.
-- * Text codecs (Sylar/util/hash_util.cc, Sylar/util.cc), in Codec.antt and its children: base64, hexadecimal text,
--   UrlEncode and UrlDecode, Trim, and split.
-- * FiberSemaphore (Sylar/mutex.h, Sylar/mutex.cc), in FiberSemaphore.antt and its children: permits and waiting
--   fibers; `Runs` has the sequences of calls.
-- writeTo and readFrom of Bitmap call ByteArray; IOManager hands its tasks to schedule, and
-- TimerManager keeps its timers in TimeWheel; HashLruCache calls LruCache; the other parts do not
-- call each other. IOManager is also a TimerManager, but the two share no state; what idle and
-- stopping ask the timers is an argument there. Base.antt has what they share.
--
-- Numbers: an integer of w bits is a natural number below 2^w, its bit pattern; sums that C++ wraps
-- are taken modulo 2^64, and differences of sizes wrap as in C++. A float or a double is its bit
-- pattern. The host is little-endian, as endian.h takes it on such a machine. A fresh block holds an
-- undetermined byte, the field `junk`; every theorem holds for each value.
--
-- Fuel: `encode_loop` has one round for each group of 7 bits of the word, and `prune_loop` one more
-- round than there are items; the theorems show that both are enough. `count_digits` of Bitmap has
-- one round for each digit of 14 bits of a 64-bit count. The loop of `getExpiredTimers` has no
-- bound in the source, and `Run` says whether it ended within its fuel; `list_expired_cb` of
-- TimerManager passes its fuel on. All other loops recur on the chain, on the bytes or on the count
-- of rounds that the source fixes.
--
-- Memory that `new` cannot get is not modelled, nor are the locks: in LruCache, HashLruCache, TimeWheel,
-- the registry, ServletDispatch and LoadBalance a lock spans each method, so a method is one step;
-- SDLoadBalance and listExpiredCb let their lock go between their parts, and are one step here all
-- the same.
-- The files, formatted text and everything that calls the operating system or a library are not
-- modelled.
pub mod Base
pub mod ByteArray
pub mod LruCache
pub mod TimeWheel
pub mod NodeService
pub mod Servlet
pub mod Bitmap
pub mod LoadBalance
pub mod IoManager
pub mod Codec
pub mod FiberSemaphore
pub mod TimerManager
pub mod HashLruCache
