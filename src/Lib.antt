-- ===== src/Lib.antt =====
-- The RDMA and NVM helper code of this repository, and the theorems that make it correct.
--
-- The program is a set of small libraries and tools over libibverbs. nvm_ibverbs/src/rdma_common.cc
-- (header nvm_ibverbs/include/rdma_common.hh) opens a device, creates and connects queue pairs, tells a
-- peer the connection data over TCP, and posts and polls work requests. rdma_transport holds the same
-- operations once more as a class. nvm_ibverbs/src/util.cc pins threads and maps the NVM device. The
-- read benchmark of nvm_ibverbs/benchmarks/readwrite puts these together, one thread for each queue
-- pair, and the programs of nvm_ibverbs/examples do so in smaller ways. nvm_write has memory regions and thread
-- pinning of its own and, like readwrite, programs over the library rlib, and nicmem a probe of a card.
--
-- How the code is modelled. Code that touches a device, a socket or the system runs in explicit state:
-- the world is a type parameter, and the calls of libibverbs, of the sockets and of the system are
-- functions on worlds in the records Verbs, Sockets, Os, Mapping and Rlib, which a theorem takes as
-- parameters. A log keeps every call with its arguments and its result, the latest first; it is no part
-- of the program, and the theorems on resources count its entries. `goto` and early returns are an
-- error monad over the locals that the exit path reads. Numbers of a fixed width are cut by `% 2 ^ w`.
--
-- Files, and the code they model:
--   Prelude, Text        helpers; the conversions %04x, %x, %lx and %s of the C library, as glibc does them
--   Verbs, Sockets       the interfaces of libibverbs and of the socket calls
--   Effects, Attempt     state passing with the log, and its extension by `goto`
--   Ledger               counting the calls of a log
--   QueuePair            createQueuePair, createMemoryRegion, modifyQPtoInit, modifyQPtoRTR,
--                        modifyQPtoRTS of rdma_common.cc; Transitions and Masks are about their states
--                        and their attributes
--   Context              createContext, destoryContext; Accounts, Selection and Leak are about the
--                        resources and the device that is chosen
--   Gid                  gid_to_wire_gid, wire_gid_to_gid, ibv_gid_to_char; Pairs and Lowercase are about
--                        the texts as such
--   Post                 rdmaWrite, rdmaRead, rdmaSend, rdmaReceive, pollWithCQ; Transfer has the
--                        semantics of a request on two memories, Poll the completions to come
--   Message              the message of client_exch_data and server_exch_data
--   Exchange             client_exch_data, server_exch_data; Agreement and Streams are about both sides,
--                        Descriptors about the sockets, Outcomes about the results
--   Transport            rdma_transport/src/RDMAtransport.cc; Create is the constructor
--   Os                   nvm_ibverbs/src/util.cc and BindToCore of nvm_write/client.cc
--   Bench                rdma_bench.cc: the set-up of a thread, the reads; Rounds has the text of a round
--                        of a server, Server its threads, Server/Steps those threads on shared memory
--                        byte by byte, Lifecycle the constructor and the destructor, and Threads
--                        run_server and run_client as a step relation, with the length of a run in
--                        Threads/Progress
--   Micro                nvm_ibverbs/examples/multi_thread/rdma_micro.hh
--   Programs             the main functions of nvm_ibverbs/examples: ReadClient and ReadServer for
--                        RdmaRead, WriteServer for RdmaWrite/server.cc, SendServer and ReceiveClient for
--                        send_recv; Named, Talks, Links and Polled are about the log and the arrays,
--                        Peers and Connected about what a connection knows of its peer
--   OneSided             nvm_ibverbs/examples/RdmaWrite/client.cc
--   Region               nvm_write/memory_region.hh and nvm_region.hh
--   Wrapper              nvm_write/thread.hh, as a step relation; Results is about join
--   Rlib                 the programs over rlib: ReadWrite for readwrite, Nvm for nvm_write/server.cc and
--                        the thread of nvm_write/client.cc; Interface has the calls of rlib
--   NicMem               getnicmem of nicmem/main.cc
--   Examples             a device, a network and a system, and the theorems at concrete inputs
--
-- Bounds. The polling loop is on fuel, one unit for each poll; the theorem on it gives as many as there
-- are polls until the completions have come. Digits are printed on fuel: 16 for a hexadecimal number of
-- 64 bits, and 10 for an `int`. All other loops are over lists or over the rounds that are left. A
-- result `none` stands for what C leaves undefined: a read outside of an array, a null pointer that is
-- followed, a buffer that overflows.
--
-- Two things that C leaves undefined have a result all the same: a server whose answer could not be sent
-- frees an element of the array of its caller (rdma_common.cc:589), and the model goes on from there; a
-- message without a terminator is scanned to the end of its buffer and no further. The theorems about them
-- hold of more runs than C defines.
--
-- Endless loops run for a number of passes, and have no result: `none` stands for a program that still
-- runs as well. The steps of threads that run side by side are the constructors of a step relation, and
-- the theorems are about every state that is reached. Which
-- threads come to their end is a parameter of the start and the join of threads: those of a server that
-- writes do not. A thread object of nvm_write/thread.hh may be started again, and its body is one step.
--
-- Not modelled: printed messages, sleeps and latencies, which no result depends on; the histogram, which
-- is a copy of that of LevelDB; thirdparty (rlib and the Debug class), whose calls are parameters; the
-- main functions of the benchmark, of the example multi_thread and of nvm_write/client.cc, which read
-- their arguments and make the objects whose methods are modelled.
pub mod Prelude
pub mod Text
pub mod Gid
pub mod Verbs
pub mod Sockets
pub mod Effects
pub mod Attempt
pub mod Ledger
pub mod QueuePair
pub mod Context
pub mod Post
pub mod Programs
pub mod Rlib
pub mod Wrapper
pub mod Message
pub mod Exchange
pub mod Transport
pub mod Os
pub mod Bench
pub mod Micro
pub mod OneSided
pub mod Region
pub mod NicMem
mod Examples
