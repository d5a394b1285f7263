-- ===== src/Lib.antt =====
-- ayafileio, an asynchronous file library in C++20: its core, and the back ends that run reads and
-- writes, as functions on explicit state, with what makes each of them correct.
--
-- How the parts work together. A host (Python) opens a file by a path and a mode; the registry picks a
-- back end by the configuration and the availability of each. A back end keeps a FileState (position,
-- cached size), and for a call plans the read or reserves the range of the write, makes a request, whose
-- memory comes from a free list and whose buffer comes from the host or from a pool of buffers, and
-- hands it to threads or to the system. When that is done the back end counts the request out, hands
-- a Completion to the operation, and releases the request. A call that needs no input or output is
-- completed inline.
--
-- Files, by the source that they model:
--   Core/Result         src/core/result.hpp             error kinds, exceptions, outcomes of a call
--   Core/FileMode       src/core/file_mode.hpp          parse_mode
--   Core/FileState      src/core/file_state.hpp, .cpp   plan_read, plan_read_at, reserve_write, seek, ...
--   Core/BufferPool     src/core/buffer_pool.hpp        BufferPool and the cache of one thread
--   Core/Buffer         src/core/buffer.hpp, .cpp       sources, moves and release of a buffer
--   Core/Completion     src/core/completion.hpp         completions, and the calls on an operation
--   Core/Lifecycle      src/core/file_lifecycle.hpp     seek, tell and truncate for every back end
--   Core/Config         src/core/config.hpp             configuration, validation, updates
--   Core/Registry       src/core/backend_registry.cpp   registration, choice and fall-back
--   Core/Request        src/core/io_request.cpp         request memory
--   Core/Backend        src/core/io_backend.cpp         IOBackendBase: counter, completions, requests
--   Platform/NativeFile src/platform/native_file.hpp    blocking primitives on POSIX
--   Backend/Thread      src/backend/thread/thread_io_backend.cpp   methods; tasks and close in Tasks
--   Core/Pool           src/core/global_thread_pool.cpp    workers, their number, the queue of tasks
--   Platform/OpenFlags  the open flags of src/platform/native_file.hpp and of each back end
--   Backend/Uring       src/backend/linux/uring_pool.cpp   submission, overflow; rings in Setup, Instances
--   Backend/Uring/File  src/backend/linux/io_uring_backend.cpp   methods, completions, close
--   Backend/Iocp        src/backend/windows: the state in iocp_request.*, iocp_session.*, iocp_context.hpp
--   Backend/Iocp/Quarantine, Worker   iocp_worker.cpp    packets, and memory that waits before its reuse
--   Backend/Iocp/Submit    iocp_submit.cpp   submissions in Methods; truncate, flush and close in Closing
--   Backend/Iocp/Context   iocp_context.cpp  ports, sessions, shutdown; Histories, Sharing and Duplicates
--                          are proofs
--   Backend/Gcd         src/backend/macos/macos_gcd_backend.cpp   tasks, chunks and transfers; Methods has
--                       the calls, Completed and Histories are proofs, Chunks is about parallel reads
--   Python/Batcher      src/bindings/python/result_batcher.cpp    results on their way to an event loop
--   Python/Registry     src/bindings/python/batcher_registry.cpp  one batcher for each loop
--   Python/Configure    src/bindings/python/py_config.cpp   configure, get_config; Options, Calls and
--                       Shown are proofs
--   Diagnostics/Souls   src/diagnostics/yuyuko/memory_record.hpp  allocations alive and released
--   Backend/Builtin     src/backend/builtin.cpp    what each build registers
--
-- State and operations. A C++ object is a record, a method a function that takes the record and returns
-- it beside the result; a mutex makes a method one step. Exceptions are the second constructor of
-- Result. Integers of w bits are natural numbers or integers with the reduction modulo 2^w written out
-- where the source's arithmetic can leave the range. Addresses and operations are numbers. What code
-- outside the repository decides is an argument or a parameter: what malloc and operator new return,
-- what the host allocates for a read, the system calls (the record Kernel), the callbacks of the
-- registry. The calls on operations are recorded in the order they are made.
--
-- Bounds and fuel. Loops are recursion on a list or on a number that falls, so that no definition but
-- those named here has fuel. The power of two of a size class is searched from 1 in at most 63
-- doublings, which reach 2^63, and the chunk size of a parallel read is doubled at most 64 times,
-- more than any size_t needs. The wait of `close_all_sessions` has 501 turns, each of which sleeps for
-- at least one of the 500 milliseconds that it may last.
--
-- Orderings. A history of a file is a list of actions: calls, and tasks or requests that finish, in any
-- order and with any result. The wait of close is the list of those that finish before the counter or
-- the deadline ends it, so that a theorem for every list covers the deadline at any time. The pool's
-- history is a list of steps of its workers and of the threads that use it. The ring's answers to
-- requests for an entry are a function of all calls made on it so far.
--
-- Not modelled: the constructors of the macOS back end and the set-up of its channel, the opening of a
-- file on POSIX, the Python bindings apart from the result batchers and the configuration, the
-- diagnostics apart from the book of allocations, the probes of the platform, and the Windows branches
-- of native_file.hpp and thread_io_backend.cpp, and the object in windows_io_backend.cpp that forwards
-- to the submissions. Memory ordering is not modelled: an atomic operation is part of its step, and
-- steps come in some order. Where that would hide something a call is cut: the packets that workers
-- handle between the return of a call of Windows and the store of a request's state are an argument of
-- the submission (`early`), and `target_workers` is two steps. What a read of freed memory gives is
-- not modelled: it is recorded (`touched_freed`), and theorems about packets are about histories
-- without it. The error variable of a thread is one field, as each report reads it right after the
-- call that set it on the same thread.
mod Base
pub mod Core
pub mod Platform
pub mod Backend
pub mod Python
pub mod Diagnostics
