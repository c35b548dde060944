-- ===== src/Lib.antt =====
-- backend-in-c: a key-value store with a write-ahead log, a message queue, the parts of a
-- distributed service, a cache, HTTP messages, a web server and sockets, as models of the C code
-- with proofs.
--
-- The parts and where they are modelled:
--   * src/database/database.c, the store. HashTable models hash_table_create, _put, _get and
--     _delete (chains are lists, in Assoc); HashTable/Hash is hash_string, and HashTable/Blocks and
--     HashTable/Destroy are what these functions and hash_table_destroy allocate and free. Wal
--     models the bytes of a log entry and the loop of database_recover, with what lies in memory
--     that it has not written as an argument. Wal/Replay is about logs that the store wrote,
--     Wal/Torn about a last entry that is cut off, and Wal/Beyond about a file with a key that no
--     NUL ends. Database models the public operations on a handle, which may be NULL, together with
--     the contents of the log file, which outlive the process; Database/Transaction models the
--     transactions, whose write set is a hash table of its own. database_put and database_delete
--     write the log first and the table second; database_open replays the log; transaction_commit
--     goes to the table only. Database/Durability is about crashes and Database/Failures about
--     writes that fail. Database/Transaction/Isolation is about two transactions on one store.
--   * src/mqueue/mqueue.c, the queue. MQueue models its nodes at addresses of a heap, with the head
--     and tail pointers, so that enqueue_message and dequeue_message are the pointer surgery of the
--     source. MQueue/Links and MQueue/Order relate the pointers to the chain of the nodes,
--     MQueue/Delivery is about publications, MQueue/Served and MQueue/Threads take the critical
--     sections of publishers and consumers in any order, MQueue/Admin is the functions that set,
--     count and clear a queue, and MQueue/Consumers is mqueue_subscribe, mqueue_unsubscribe and
--     mqueue_destroy. MQueue/Serving is the loop of consumer_thread for a consumer that is alone
--     with a queue, MQueue/Sorting the order of a queue without its places, and MQueue/Publishing a
--     list of publications to a new queue.
--   * src/distributed/distributed.c. Distributed/ServiceRegistry, AuthToken, RateLimiter,
--     CircuitBreaker, RetryPolicy and Metrics model its six sections, function by function. The
--     lists that they walk are those of Assoc. ServiceRegistry/Threads splits service_register into
--     the steps that threads interleave, and ServiceRegistry/Race is two such calls at once; the
--     Destroy modules and Distributed/Memory are the blocks of memory.
--   * src/cache/cache.c, the LRU and LFU cache. Cache models its entries at addresses, with one
--     array for each link field, and Cache/Calls the functions that a program calls; Cache/Lists,
--     Recency and Chains are about the doubly linked list and the chains of the table,
--     Cache/Invariant says when both hold the same entries, and Remove, Moves, Insert, Eviction and
--     Clear are about the operations. Cache/Model is the cache without addresses, a list of
--     entries, and Cache/Runs compares the two. cache_put_with_ttl reads the clock twice.
--   * src/http/http_parser.c: Http models the method names and the responses with their
--     serialization, Http/Request the requests and Http/Parse their parsing, scan by scan.
--     Http/Message is a request as a client means and writes it, Http/Cut and Http/Lines are about
--     strstr, sscanf and the loops over the header lines, and Http/RoundTrip puts them together.
--     Http/Blocks is what the functions allocate and free; Http/Destroy, Http/Leaks and
--     Http/Responses compare the two.
--   * src/webserver/webserver.c: Webserver models the start, stop and destruction of the server,
--     what a client is sent (Webserver/Clients), the sockets (Webserver/Sockets), and the memory of
--     a connection (Webserver/Memory).
--   * src/http_status/http_status.c is HttpStatus.
--   * src/tcp_udp/tcp_udp.c: TcpUdp models the flags that its servers, clients and sockets keep,
--     and which descriptors their functions close; TcpUdp/Multiplexer the functions that only look
--     at their arguments.
--   * src/concurrency/concurrency.c: Concurrency models the counter, the one part with a state, and
--     Concurrency/Races the loads and stores of threads that increment it at once.
--   * src/common/common.c and include/common.h, which all of them use, are Common, with the 64-bit
--     words and ints in Common/Words and the %lu of printf and scanf in Common/Decimal.
--     Common/Blocks is the allocation wrappers and Common/Nodes the memory of a list.
-- Prelude passes on the library's names and adds lists over native numbers, Boolean tests and C
-- strings.
--
-- Conventions. A pointer that may be NULL is an Option. A C string is the list of its bytes before
-- the NUL; a buffer with a size is the list of its bytes. Every function returns its error code and
-- the new state. The time is an argument of each function that reads the clock, once for each
-- reading. A critical section under a lock is one step. Allocation succeeds, since the wrappers of
-- common.c exit the process where it fails. uint64_t and uint32_t keep their wrap-around. The count
-- of failures of a circuit breaker is an int, as its 32-bit pattern; where C leaves its overflow
-- undefined the theorems have a bound.
--
-- Parameters. The file system is the record Os, with the memory that recovery reads unwritten in it
-- (Wal.Heap), the doubles of the metrics are the record Doubles, and the answers of the socket
-- calls are the record Answers. The handler of the web server, the function that a caller hands to
-- the breaker or the retry loop, and the multiplication of a delay by the backoff factor are
-- arguments.
--
-- Fuel. Wal.recover gives its loop as many turns as the log has bytes and one more; each turn takes
-- a header off, so the loop always ends by itself. MQueue.find_place and MQueue.Admin.free_nodes
-- get one turn more than the queue has nodes, and MQueue.Serving.serve gets one for each message;
-- the loops of the cache get one more than it has entries. The loops over the header lines get a
-- turn for each byte of the text.
--
-- Memory. Where the freeing of memory is the subject, the state has the number of blocks that are
-- allocated, and a function that allocates or frees has a companion, named with blocks, that says
-- how it changes the number; a number that would fall below 0 is none. In the cache and the queue
-- the blocks are the addresses themselves.
--
-- Not modelled: the threads themselves (their critical sections are), the condition variable of the
-- queue, and the isolation levels, which no code reads; the locks of the cache; the pools, locks,
-- queues and futures of src/concurrency, and the modules whose code only fills in defaults or
-- returns constants (src/auth, src/crypto, src/security, src/cache_strategies, src/db_performance,
-- src/latency_observability, src/network_serialization, and those of one line).
pub mod Prelude
pub mod Common
pub mod Assoc
pub mod HashTable
pub mod Wal
pub mod Database
pub mod Distributed
pub mod MQueue
pub mod HttpStatus
pub mod Http
pub mod Cache
pub mod Webserver
pub mod Concurrency
pub mod TcpUdp
