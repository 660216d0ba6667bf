-- ===== src/Lib.antt =====
-- flualibs: Lua modules for FreeBSD written in C. This library models the modules that keep state of their
-- own behind userdata: asynchronous I/O (aio) and threads (libpthread), with the code they share, directory
-- streams (dirent), message queues (mqueue), and the coding of strings (b64, xor); and of the modules under
-- sys/ those for sockets, vectors of buffers, kernel queues, event counters, sets of
-- processors and watches of the file system.
--
-- How the parts interact. A C function called from Lua reads its arguments, changes the C heap and the
-- user values of userdata, and returns values or raises an error (Lua.Run.Run). A userdata carries a
-- pointer, its cookie (utils.h), to an object on the heap; several userdata, also of several Lua
-- states, may carry the same pointer, and the object then counts them (libpthread/refcount.h).
--
--   Common     numbers, lists and integers of a machine word
--   Lua        values, userdata and the heap (Values); outcomes of C functions (Run)
--              and the stack of a Lua state as a list (Stack)
--   Heap       malloc and free
--   Utils      utils.h: results, errors, cookies, descriptors
--   Refcount   libpthread/refcount.h
--   Signal     signal/lua_signal.h
--   Aio        aio/lua_aio.c: control blocks (Defs), their creation (Create), submission and return
--              (Submit), release (Release), lists and completion (Batch)
--   Pthread    libpthread/lua_pthread.c: counted objects (Defs), retain, cookie and finalisers (Handles),
--              constructors (Create), methods that call one library function (Methods), cleanup
--              handlers, with tpush, tpop, tpack and tunpack of utils.h (Cleanup), values copied from one
--              Lua state to another (Copy), the exchange of values at a rendezvous (Rendezvous), and how
--              threads start, with what attributes (Attr), end and are joined (Threads)
--   Base64     b64/lua_b64.c
--   Dirent     dirent/lua_dirent.c
--   Mqueue     mqueue/lua_mqueue.c
--   Sys        what the modules under sys/ share: system calls, memory, and what a call keeps of it (Keeps)
--   Sys.Socket     sys/socket: addresses (Socket, Address), the calls (Calls), and sendfile with its
--                  arrays and its stack (Sendfile, Filling, Arrays, Headers, Sending)
--   Sys.Descriptor a descriptor as the user value of a userdata, and its abstract view (Refinement)
--   Sys.Eventfd    sys/eventfd/lua_eventfd.c
--   Sys.Inotify    sys/inotify/lua_inotify.c: one event in memory (Buffer), the format (Events)
--   Sys.Uio        sys/uio: buffers on the heap (Buffers), checkriovecs (Filling), the calls
--   Sys.Event      sys/event/lua_event.c
--   Sys.Cpuset     sys/cpuset/lua_cpuset.c
--   Xor        xor/lua_xor.c
--
-- A definition has the name of the C function that it models. Where one function is split, the parts
-- have names of their own (in aio/lua_aio.c, dispose and finish are the end of l_aiocb_free).
--
-- Bounds and fuel. Addresses are numbers, 0 is NULL, and an address is used for one allocation, so that
-- every use after free is seen (the outcome fault). Counts are unsigned longs of 64 bits; the histories
-- in Pthread.Ownership have fewer than 2 ^ 64 userdata, as memory bounds them. The loop at the label
-- retry of l_aiocb_free runs on fuel; more fuel than interruptions by signals is enough. The kernel,
-- libc, the pthread library and the conversions of Lua are parameters: Kernel, Lib, Api, and oom, which
-- says of each allocation whether it fails. The recursion of copyn takes one unit of depth, the C stack,
-- per level; Pthread.Copy.Depth says how many are enough. Its parameter slot tells versions of Lua apart,
-- by whether luaL_buffinit pushes a slot (from 5.4.3 on). The loop over the events of an inotify runs on
-- as much fuel as there are bytes, and each event takes at least 16 of them.
--
-- Under sys/ a kernel without a state gives one answer for the arguments of a call; where a sequence of
-- calls matters (Sys.Descriptor) it has a state of any type. Metamethods of tables, and a failing allocation
-- inside Lua, are left out; so is the room on Lua's stack. A call of the pthread library is a function of its
-- arguments: that it may block is modelled for the rendezvous alone, where threads take steps.
--
-- The proofs. Aio.Protocol to Aio.Waiting take one operation each, on an open block (Aio.Submission.Open);
-- Aio.Listing is the loop over a list: what a rollback puts back, what the loop does with each element
-- (Walk), and the whole call (Whole). Pthread.Copy.Meaning says what arrives of a value that is copied, and
-- Pthread.Copy.Documented what the manual page promises. Pthread.Created says what constructors leave,
-- Pthread.Methods.Quiet that methods change nothing, and Pthread.Ownership puts them together in
-- histories of steps.
-- Pthread.Rendezvous is a system of threads, one Lua state each, that take a step at a time: the mutex, the
-- field waiter and the stacks; its parameter faults admits wakeups that nobody signalled and deadlines
-- that pass during a wait. Rendezvous.Calls is about one exchange, Rendezvous.Registered, Meeting and
-- Faults about runs. Pthread.Threads has Lua states on the heap, so that a use after lua_close is seen.
--
-- Not modelled: l_aiocb_local and l_aiocb_index of aio/lua_aio.c; in libpthread/lua_pthread.c the attributes
-- and affinities that are read, calls that change the calling thread only, and pthread_once; errors of the
-- locks in an exchange; cleanup handlers that change the cleanup stack themselves; the layouts of the
-- structs that hold a count, which differ by kind, so that a retain under the metatable of another kind is
-- here like any other; stack slots that a refused copy leaves under an error. The other modules mostly
-- translate structs and call one library function.
pub mod Aio
pub mod Base64
pub mod Common
pub mod Dirent
pub mod Heap
pub mod Lua
pub mod Mqueue
pub mod Pthread
pub mod Refcount
pub mod Signal
pub mod Sys
pub mod Utils
pub mod Xor
