-- ===== src/Lib.antt =====
-- octo-logger-cpp: a logging library for C++. A program makes a Logger on a named channel; a logging
-- statement makes a Log, streams values into it, and at its destruction the Manager (one for the
-- process) passes it to each of the sinks that it was configured with. Channels carry a level below
-- which nothing is logged; context info (keys and values) is kept for the process, for each logger
-- and for each log.
--
-- Files of this library, and the code that each is about (paths from the repository's root):
--   Prelude   shared names: Booleans and tests, lists, texts as lists of bytes, maps, results.
--             Prelude/Decimal is the int of include/octo-logger-cpp/config-utils.hpp.
--   Level     include/octo-logger-cpp/log-level.hpp: LogLevel, level_to_string, string_to_level.
--   Compat    src/compat.cpp, include/octo-logger-cpp/compat.hpp: gmtime_safe_internal (year_loop,
--             month_loop and set_day are its loops and their ends), gmtime_safe, localtime.
--   Context   src/context-info.cpp: ContextInfo, an association list for the unordered map;
--             Context/Abstract is the quotient of these lists that forgets the order.
--   Config    src/sink-config.cpp, src/manager-config.cpp and their headers.
--   Channel   src/channel.cpp and the data of channel-view.hpp, log.hpp and logger.hpp. A shared
--             pointer to a channel is an address in a list of channels, so the manager's map and any
--             number of loggers see one and the same channel.
--   Manager   src/manager.cpp, src/sink-factory.cpp. A sink is an address too; the virtual calls that
--             the manager makes on sinks are recorded in order with their arguments.
--             Manager/Threads: the operations under sinks_mutex_ and global_context_info_mutex_ as
--             steps of any number of threads, a step being one access under a lock or one call of a
--             sink; Manager/Threads/Fork: child_on_fork, when other threads hold these locks.
--   Logger    src/logger.cpp, src/log.cpp, Manager::instance and reset_manager. `write` is one whole
--             logging statement: the log is made, streamed into, and destroyed.
--   Sink      src/sink.cpp, include/octo-logger-cpp/sink.hpp: the texts that every sink makes of a log.
--             What the C library, the system and the JSON library do is a record, Environment.
--             Sink/Destination is init_context_info_impl for any destination, and Sink/Reports what
--             formatted_log prints about an illegal line format.
--   FileSink  src/sinks/file-sink.cpp and its header: the folder (Folders) and the names of the files, what
--             a listing of them says about the next one (Names), the change of files and the writing
--             (Streams), and the constructor (Making). The file system is a record, FileSystem.
--   Flow      the virtual functions of Sink as a record, SinkClass, which each class of sinks fills
--             (Classes), the calls that the manager makes, carried out by one of them, and the destructor of a
--             sink that the manager gives up (given_up).
--   Console   src/sinks/console-sink.cpp; Console/Json: src/sinks/console-json-sink.cpp.
--   SysLog    src/sinks/syslog-sink.cpp, over a record of the C library's calls, SystemLog.
--   TraceLogger  include/octo-logger-cpp/trace-logger.hpp.
--   ForkSafeMutex  src/fork-safe-mutex.cpp: the mutexes of a process and of its child after a fork.
--   Aws       src/aws/aws-log-system.cpp: conversions of levels and tags (Levels), what is cut out of
--             the messages of the AWS SDK (Sanitizer), what LogStream logs (LogSystem), and the one
--             instance with its level (System).
--             Aws/CloudWatch: src/aws/cloudwatch-sink.cpp, the queue of logs (Life), the thread that sends
--             them (Thread), the requests it makes (Sending, Streams), and its texts (Format, Destination). The AWS client is a record,
--             Client, and the requests that were made are kept in order.
--   UnitTests tests of unittests/src as functions into Bool, each file's `all_pass` a run of them on the
--             definitions here: the tables of cloudwatch-sink-tests.cpp, logger-tests.cpp, log-tests.cpp and
--             sinks/console-json-sink-tests.cpp, and logging-tests.cpp with its dummy sink.
-- Beside each, modules of lemmas are named for what they are about, and Tests has runs and the
-- theorems at concrete inputs.
--
-- How the code is written here. A method that changes its object is a function to the new object. An
-- exception is a `throw` of Result, and a value that the C++ standard leaves undefined is `none` or an
-- argument (`junk` in Manager.configure). Loops are by recursion on what they go through; the loop
-- over the years of a four-year period in gmtime_safe_internal has fuel for four rounds, and never
-- needs more. The loop that empties the queue of the CloudWatch sink has as much fuel as the queue has
-- logs, and the making of folders two more than the path has bytes, since each folder's path is shorter
-- than that of the one in it. A std::string is a list of bytes. A std::string_view is its bytes and the
-- bytes behind it, since create_channel reads it as a C string. The order of an unordered map is that of
-- the list that stands for it.
--
-- Manager/Sharing interleaves two calls of update_global_context_info at their locked reads and writes.
--
-- Not modelled. Locks other than the two of Manager/Threads, and with them threads that race with
-- configure, with the channels' map, or with the queue of the CloudWatch sink, which the code changes
-- without these locks. The manager's virtual calls on its sinks are recorded, and Flow carries them
-- out for one sink at a time, of any class; exceptions that come out of a sink are not modelled. Which
-- sinks the manager's vector gives up, when it is cleared, is recorded in the memory (`released`);
-- their destructors, which stop a CloudWatch sink and close the files of a file sink, run then unless
-- another shared pointer holds the sink; who else holds it is an argument (`held` in Flow), not a part
-- of the state. The end of a channel's life: no code looks at a channel that nothing refers to. The
-- names of groups and streams are given to the AWS client whole, where the code gives it c_str(),
-- which ends at a NUL. The values of the JSON object that init_context_info is given are strings, as
-- all are that it makes. The C library's localtime_r and the clock are arguments; the fmt, JSON and
-- AWS libraries are outside of src/. Of the unit tests, those that use the system's clock, time zone
-- or fork are left aside, and so are the examples.
mod Prelude
pub mod Level
pub mod Compat
pub mod Context
pub mod Config
pub mod Aws
pub mod Channel
pub mod Manager
pub mod Logger
pub mod Sink
pub mod ForkSafeMutex
pub mod FileSink
pub mod Console
pub mod SysLog
pub mod TraceLogger
pub mod Flow
pub mod UnitTests
