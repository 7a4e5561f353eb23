-- ===== src/Lib.antt =====
-- Verification of cpp-library: a JSON library, a memory pool, timers, a thread pool, sorts, and
-- the fibers, the scheduler, the IO manager, the logging and the configuration of a server.
--
-- Most parts of the program do not call each other, so each has a module tree of its own; the IO
-- manager gives jobs to schedulers, which Server models, and the scheduler reads and sets the
-- states of fibers.
--
--   Base: lists, options, tests and bits over native numbers, shared by all modules.
--   Json, of MyJson/tutorial08/leptjson.cpp and leptjson.h. Json/Syntax has the value; Json/Buffer
--   the stack of `lept_context`; Json/Scan whitespace, literals and numbers; Json/Run the context
--   and the result of a call; Json/Text the strings, `\u` escapes and UTF-8; Json/Parse
--   `lept_parse_value` and what it calls; Json/Print the generator; Json/Access the getters and
--   setters; Json/Equal `lept_is_equal` and `lept_copy`; Json/Array and Json/Object the functions
--   on arrays and objects. `double` is a type parameter with `strtod`, "%.17g" and `==` as a
--   record; what the round trip needs of them is the record NumberLaws.
--   MemoryPool, of MemoryPool/chunk.cpp, memory_pool.cpp and data_buf.cpp: Chunk, Pool, Buffer.
--   The buffers allocate from the pool and give back to it; the results of `ioctl`, `read` and
--   `write` are arguments.
--   Timer, of C++高性能服务器/atpdxy/timer/timer.cpp: a heap of timers and the sorted set of their
--   addresses. Timer/Order is about the set, Timer/Invariant about single timers, Timer/Due,
--   Timer/Fire and Timer/Expired about `listExpiredCb`, Timer/Runs about sequences of calls.
--   ThreadPool, of ThreadPool/ThreadPool.h: the critical sections, the sleep in the wait and the calls
--   of `notify_one` and `notify_all` as steps of a relation. ThreadPool/Laws is about the queue,
--   ThreadPool/Wakeups about the condition variable.
--   Sort, of 排序算法/sort.cpp: the sorts that compare and move; Sort/Distribution quick
--   sort and the sorts by digits, buckets and counting.
--
--   IoManager, of C++高性能服务器/atpdxy/iomanager/iomanager.cpp: the registered events of each
--   descriptor, the counter, and the calls of `schedule` and of `epoll_ctl`. IoManager/Masks is about the sets of
--   events, IoManager/Totals about all contexts, IoManager/Laws and IoManager/Runs about the
--   invariant, IoManager/Reports about `idle`, IoManager/Deliveries about what is scheduled.
--   Fiber, of C++高性能服务器/atpdxy/fiber/fiber.cpp: the fibers of one thread; a context is the
--   stack that it goes on with. Fiber/Runs is about the calls of fibers from the main one,
--   Fiber/Nested about a fiber that was called and enters another.
--   Scheduler, of C++高性能服务器/atpdxy/scheduler/scheduler.cpp: the queue, the threads and the
--   counters. Scheduler/Pick is about the search of the queue, Scheduler/Counts and Scheduler/Laws
--   about the counters, Scheduler/Runs about the interleavings of the threads.
--   Server: the IO manager with the schedulers that its events give jobs to.
--   Log, of C++高性能服务器/atpdxy/log/log.cpp: Log/Level, Log/Pattern (`LogFormatter::init`),
--   Log/Format, and Log/Logger with the loggers, appenders and their manager in a store, and
--   Log/Logger/Config for the listener of `LogIniter`. `strftime` is a parameter.
--   Config, of C++高性能服务器/atpdxy/config/config.h and config.cpp: the variables and their
--   registry. Config/Listeners is about the listeners, Config/Registry about names, Config/Yaml
--   about `loadFromYaml`, Config/Runs about sequences of calls. Conversions of values and yaml-cpp
--   are parameters; a listener is what it does to the rest of the program,
--   and it may throw; one that uses the configuration itself is left out.
--
-- Each `Examples` has tests and applies the theorems at concrete inputs.
--
-- Bounds and fuel. `uint64_t` and `unsigned` arithmetic is written with `% 2 ^ 64` and
-- `% 2 ^ 32`; sizes of allocated blocks are plain numbers. A parse starts with twice the length of
-- the text plus one as fuel, since a value or a round of a loop reads a byte; the
-- results on `lept_parse` say what it suffices for. The stack grows on fuel above the bytes in use.
-- A formatter's pattern is read with fuel for each byte, and `Logger::log` with fuel for a logger
-- and the root.
--
-- Not modelled: allocation failure, the heap blocks behind JSON values (so leaks), the data race in
-- `listExpiredCb`, the pipe of the IO manager, the reopening of log files, the conversions between
-- log definitions and YAML, the scheduler's use of the calling thread (`use_caller`), the
-- conversions of the configuration's values, MySTL (a copy of MyTinySTL), and the earlier JSON tutorials.
pub mod Base
pub mod Json
pub mod MemoryPool
pub mod Config
pub mod Timer
pub mod ThreadPool
pub mod Sort
pub mod IoManager
pub mod Log
pub mod Fiber
pub mod Scheduler
pub mod Server
