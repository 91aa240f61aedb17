-- ===== src/Lib.antt =====
-- A verification library for Spindle, which loads the libraries of a parallel program: on each
-- node a server answers the clients' requests for files, and the servers form a tree over which
-- one of them, rank 0, reads a file once and passes it on.
--
-- The parts that are modelled, and how they meet:
--
-- * Exit models when a server ends: the client table of
--   src/server/auditserver/ldcs_audit_server_server_cb.c (`_ldcs_server_CB` is `server_cb`) and the
--   handlers of src/server/auditserver/ldcs_audit_server_handlers.c under the functions' own names.
--   The state is a `Server`, the part of `ldcs_process_data_t` that these handlers read or write; an
--   `Event` is a message or a callback, and `handle` is the dispatch. A handler returns the new
--   state with the messages it sends, and `none` where an assertion fails. `Reach` holds of the
--   states that some events lead to. The counts are unbounded, where the source has int.
-- * Requestors models src/server/auditserver/ldcs_audit_server_requestors.c, the tables that note
--   which peers wait for which file: a table is a function from the hash to a chain of entries, the
--   array of peers a list with the size allocated for it beside it. The handlers of requests use a
--   table only through these functions, and Requestors/Refine sees a table as a function from files
--   to peers.
-- * Relay models how a server hands results down and queries up, `handle_send_msg_to_keys`,
--   `handle_send_metadata_to_keys`, `handle_send_query`, `handle_metadata_request`,
--   `handle_tls_send_request` and `handle_tls_send_results` of the handlers, over these tables. A
--   `Relay` has the tables, the way of distribution and a log of what the network layer sent;
--   whether its sends work is an argument. `RelayCall` is one call of these functions, or
--   the query that an existence test sends.
-- * Cache models src/server/cache/ldcs_cache.cc, what a server knows of directories and files: a
--   function from both names to an entry. `none` is a failed assertion (`some none` the -1 of an
--   encoder). The directories of the
--   file system are an argument (`Listing`). The packets by which servers tell each other of a
--   directory are bytes, as Wire has them.
-- * Files models the requests of other servers for directories and files (`handle_request` and what
--   it calls in the handlers) and the messages with directories, error codes and aliases, over
--   Cache and Relay: a `FileServer` has both, with the options and paths that are read. Where
--   `handle_request_file` ends in a call that reads or sends the contents of a file, the model says
--   which (`RequestEnd`).
-- * Msgbundle models src/server/auditserver/msgbundle.c, which joins small messages to one
--   destination, and `handle_msgbundle` of the handlers, which cuts them apart at the other end. A
--   `Bundler` has the buffers and a log of what went to the network. Wire has the messages of
--   src/include/ldcs_api.h and the bytes of their headers. Msgbundle/Timer has the steps of the
--   timer thread against those of the main thread, forced flushes among them.
-- * Tree models the binomial tree of the servers in src/cobo/cobo.c, and in Tree/Collect the
--   gather and the scatter over it. All sockets work, and a read waits for what the peer writes.
-- * Launch models src/slurm_plugin/encode_decode.c, the string by which the slurm plugin hands the
--   configuration to the daemons, with the conversions of snprintf and sscanf that it uses. Where
--   the string's length overflows its int, the encoder's result is `none`.
-- * Shm models src/client/shm_cache/shmcache.c, the cache of answers in memory that the clients of a
--   node share: hash chains and a list by age over one heap, from which the oldest entries are
--   cleaned for space. An entry is known by the number of its creation, the allocator of
--   src/biter/sheep.c is the parameter `Sheep`, and each operation is one step, as the lock makes it.
--   `none` is a failed assertion or a read through NULL. `Reach` has the histories of a cache that
--   several clients use and wait on, in which each update is of a name in progress and finds space;
--   updates that find none, or that are of a settled name, are modelled by the operations, and the
--   code can come to both, but they are left out of these histories.
-- * Localnames models the names of local copies: `filemngt_calc_localname` of
--   src/server/auditserver/ldcs_audit_server_filemngt.c, which makes them, and
--   src/server/cache/global_name.c, by which the server finds the original path of one again. The
--   array's size is an int, which holds it while the array has less than 2^27 names.
-- * Statcache models src/server/cache/stat_cache.cc, the results of stat, lstat and of the search of
--   the loader, by path.
-- * Paths models `reducePath` of src/utils/pathfn.c, which brings a path to its normal form; the
--   loop has a round for each byte.
--
-- Strings are lists of byte values without the closing NUL, and arrays are lists. Numbers are not
-- negative; where a C type is narrower, the bound is a hypothesis or is written out, or its
-- absence is noted above.
--
-- Fuel: `find_place` and `double_until` of Tree run for `nprocs` rounds, and each round narrows
-- the interval, or doubles the power, so that the loop's test fails by then; the collectives take
-- one round for each level of the tree, of which there are at most `nprocs`. `print_number` of
-- Launch has twenty digits, which 64 bits do not exceed. `unbundle` of Msgbundle has a round for
-- each byte, and so has `decode_names` of Cache. `handle_request_file` of Files needs two rounds.
-- The two loops of `malloc_sheep_cache` in Shm clean an entry in each round, so that they have one
-- round more than there are entries. `print_hex` of Localnames has eight digits, which an unsigned
-- int does not exceed, and `grow_until` has four rounds.
--
-- Not modelled: calls of malloc that fail (but those on the shared heap), failures of the network
-- layer but for those that Relay takes as an argument, logging, and what the operating system
-- does. The clients, which redirect the calls of the loader, but for their shared cache, the
-- reading of the contents of files and of metadata by the server, its answers to clients, the
-- crash reports, the handshake of the tree, the start of a session, the file copies and the tool
-- that joins sessions are left out so far.
pub mod Cache
pub mod Exit
pub mod Files
pub mod Launch
pub mod Localnames
pub mod Msgbundle
pub mod Paths
pub mod Prelude
pub mod Relay
pub mod Requestors
pub mod Shm
pub mod Statcache
pub mod Tree
pub mod Wire
