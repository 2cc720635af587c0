-- ===== src/Lib.antt =====
-- Models of the programs of this repository, and what is proved of them.
--
-- The repository holds solutions of five programming labs in C. Base has what all models share:
-- lists as arrays, integers, Boolean tests.
--
-- shlab_code/tsh.c, a shell with job control: Shell. The job list (Shell/Jobs) is a list of records,
-- one for each `struct job_t`, with `nextjid` and what has been printed next to it; a pointer to a
-- job is an index. The routines keep their names: addjob, deletejob, fgpid, getjobpid and so on.
-- Shell/Signals has the signal handlers: `sigchld_handler` runs on the list of what its calls of
-- `waitpid` return, and either returns or jumps to `waitfg` with the rest of the list unread.
-- Shell/Parse is `parseline`, on the bytes of the line; the length of the line is the fuel of its
-- loop, and enough, since every round takes a delimiter. Shell/Eval has eval, builtin_cmd and
-- do_bgfg, with `atoi`, the number of SIGCONT and the result of `fork` as parameters. Shell/Session
-- puts commands and signals together as a step relation: the states are the loop of `main` and the
-- wait in `waitfg`. In it a command is atomic, and a signal comes between two commands or while
-- `waitfg` pauses. Shell/Main has the options of `main` and a round of its loop, on what `getopt` and
-- `fgets` return.
--
-- datalab_code/bits.c, puzzles on 32-bit integers: Words has the words, natural numbers below 2 ^
-- 32, and C's operators on them, Words/Digits the laws of their bits, Words/Fields those of masks
-- and fields, Datalab the puzzles.
--
-- cachelab_code, a simulator of a cache: Cachelab. Cache has the data of cache.c, OpParser the masks
-- of opparser.c, Simulator the operations of simulator.c on a record of the simulator, the cache,
-- the register and the block of memory; `overrun` in it is set once the code has gone outside of an
-- array. The items that `sscanf` reads and the contents of fresh memory are arguments. The printout
-- is not modelled; argparser.h has no source here, and cachelab.c only prints.
--
-- proxylab_code, a web proxy: Proxy. Scan has the conversions of `sscanf` that the code uses, on texts
-- without their NUL, Request the parsing of the request line and of a header's entry in request.c,
-- Headers and Forward the changes to a header and the request that client.c sends on, Service the
-- handling of one connection in server.c, `doit`. Lines and pieces that the calls of Rio return are
-- lists; the network is a function from host and port to a failure or a server, and a server a function
-- from the bytes that are sent to the pieces of its answer. What the code reads from memory that it has
-- not set, such as the start of an array, is an argument. ObjectCache is the cache of responses of
-- cache.c, ConnQueue the ring of connections of server.c. An operation on them runs as one step, from its
-- first P to its last V; a circular list of util.c is the list of its elements from the head on. Below
-- this, Lists has the lists of util.c as nodes with pointers, and Locks and ConnQueue/Threads have the
-- threads in cache.c and server.c as they go from one semaphore to the next, in any order. The length of
-- the queue is the fuel of the loop that makes room for an object, and enough, since every round takes
-- one from it; the loops over nodes have the number of nodes as fuel, and ten rounds are enough for the
-- digits of an int. The loop that reads a header is given a number of rounds, since it can go on for
-- ever; as many as the header has entries are enough where it is complete. The copy of a key in the cache
-- has no NUL: what the memory has behind it is an argument of a retrieval.
--
-- malloclab_code/mm.c, an allocator: Malloc. Memory has the memory, a function from the address of a
-- unit of eight bytes to its value, in a record with the global variables; Block the header and the
-- footer of a block, FreeTree the max-heap of pointers to free blocks, Setup the free, allocated and
-- wandering blocks, Adopt the places that `mm_realloc` looks at, Alloc the routines of the package,
-- with the lab's memlib as a parameter. The loops of the tree have its number of nodes as fuel: a
-- round of `freetree_sink_node` and of the search goes to a larger offset, one of
-- `freetree_emerge_node` to a smaller one. `freetree_adjust_capacity_if_necessary` calls itself by
-- way of `mm_realloc`, but returns at once while the tree is moved, so one level is fuel enough;
-- Flag follows the flag that says so through all routines. The theorems on the tree are about IsTree
-- of Malloc/FreeTree/Tree: nodes at increasing addresses, each with the pointer to a free block
-- whose footer holds the place of the node.
--
-- Not modelled: signals within a command of the shell, with the mask and the buffer of `siglongjmp`;
-- `mm_check` of malloclab_code/mm.c, which is compiled out; in proxylab_code errors of
-- reads and writes, error pages, which nothing calls, the opening of sockets and the creation of
-- threads (its csapp.c is the textbook's code, logger.c and proxy.c only print and start the server);
-- and archlab_code, which is assembly.
pub mod Base
pub mod Shell
pub mod Words
pub mod Datalab
pub mod Cachelab
pub mod Proxy
pub mod Malloc
