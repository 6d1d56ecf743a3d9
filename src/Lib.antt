-- ===== src/Lib.antt =====
-- A verification library of the examples of hse-multithreading-examples.
--
-- Prelude: Boolean tests on numbers, byte sequences with memcpy, families updated at one index.
--
-- hw4 (hw4/*.h, hw4/*.cpp): a message queue in shared memory, a producer and a consumer.
-- - Hw4/Protocol: the constants and the layout of hw4/ipc_queue.h. An array of slots is a function
--   of the index, since every access is below the capacity; a byte is a number.
-- - Hw4/Queue: init_queue, is_queue_valid, get_slot, try_push_message and try_pop_message. `push`
--   and `pop` are the last two behind their tests for null pointers, which are `none` in the
--   functions of the source's names. size_t counts modulo 2 ^ 64. The children show the shape that
--   the operations keep (Contents), each operation's branches (Init, Push, Pop), the queue against
--   a mailbox (Hw4/Mailbox, Queue/Refine) and what a full queue leads to (Queue/Overrun).
-- - Hw4/Os: the system calls as an interface, and what POSIX documents of them. Hw4/Shm:
--   create_shared_memory, open_shared_memory, create_or_open_shared_memory, close_shared_memory and
--   unlink_shared_memory over it. Hw4/Memory: the command line and the mapped memory.
-- - Hw4/Producer and Hw4/Consumer: the two programs. The consumer's loop runs on fuel; one round
--   more than there are ready slots is enough, so 17 rounds always are. A print that reads beyond its
--   buffer has no meaning and ends the model's run without a result. strtoull is a parameter.
--   Hw4/EndToEnd joins the programs. Here each operation runs as a whole, with no other process
--   between its steps.
-- - Hw4/Concurrent: try_push_message and try_pop_message again, one access a step over Threads, for
--   any number of producers and one consumer. Slots says what a process knows of the queue, Steps
--   and Effects what a step changes, Whole what holds of all of them, Safety what readers get, Balance
--   how many messages are published and read, WaitFree how many steps a call takes. The acquire and
--   release orders of the code are taken to give sequential consistency.
--
-- Threads: a system of threads over shared memory. The next parts give a relation `Move` of what a
-- thread does in one step, with at most one shared access in it; any thread may take the next
-- step, and memory is sequentially consistent, as the atomics of these files are by default. A weak
-- compare-exchange may fail although the values agree. Loops are program counters and need no
-- fuel; where a theorem is about the state at the end, its premise says that the threads ended.
-- - LockFree/ArrayStack: BufferedLockFreeSPSCStack of lock_free/spsc_stack.cpp, its indices under
--   any interleaving (Bounds), a read too early (Race), and one thread at a time (Alone). The class
--   stands in ipc/shm_atomics.cpp too.
-- - LockFree/LinkedStack: LockFreeSPSCStack of the same file, on a heap whose addresses are given out
--   again: lists of nodes (Chain), what a thread knows (Single), each step (Steps), the promises with
--   one consumer (Order), two consumers (Reuse), and the destructor, on one round more than there are
--   nodes (Destroy). LockFree/LockedStack: SPSCStack and `main`.
-- - Locks/Spinlock: synchronization_primitives/mutex/spinlock.cpp. Locks/Latch: futex/latch.cpp,
--   the futex as futex(2) documents it. Locks/Deadlock: mutex/deadlock.cpp, with NoDeadlock in
--   Freedom and Deadlock in Stuck. Locks/Livelock: mutex/livelock.cpp, whose waits may time out at
--   any time. Locks/Mutex: mutex/mutex.cpp, whose steps are steps of the Spinlock's threads.
-- - Locks/ProtectedData: mutex/lock_guard.cpp, whose calls run one after the other.
-- - Locks/DataManager: mutex/shared_mutex.cpp, a vector that is replaced and copied under a mutex.
-- - ThreadPool: structured_concurrency/packaged_task.cpp, what its steps change (Effects) and what holds
--   of each task (Once). What a task's function does is a parameter. The append in Submit, which
--   takes no mutex, has a begin and an end, and a worker that uses the list between them races with
--   it; after that anything may happen. That C++ calls a race what nothing orders, overlap or not, is
--   not modelled.
-- - Atomics/Cas, Atomics/Sum and Atomics/Race: synchronization_primitives/atomics/cas.cpp, data_race.cpp
--   and race_condition.cpp. Atomics/LostUpdates: sync_intro/data_race.cpp, whose race has no defined
--   meaning in C++, as a load and a store.
--
-- - Barrier: synchronization_primitives/barrier/barrier.cpp over std::barrier as it is documented, what a
--   step keeps (Rounds), and the rounds (Lockstep).
-- - Tasks/Channel: CalcSum of tasks/synchronization_primitives/*/benchmark.cpp. The channels are exercises
--   without bodies, so the channel is an interface with the contract that the tests ask for as its laws
--   (Channel, IsChannel); Sums is what the senders send, Effects what a step changes, Benchmark the
--   result, and Exercise the classes as they stand.
--
-- Ipc: processes, as step relations of their own or over Threads. What a system call does is what its
-- manual page says; calls that fail end the program and are left out.
-- - Ipc/Text: lines in fixed buffers, as they are written and printed.
-- - Ipc/ShmAtomics: the two loops of ipc/shm_atomics.cpp over the steps of LockFree/ArrayStack.
-- - Ipc/Exchange: the loops of ipc/shm_intro.cpp and ipc/mmap_intro.cpp: with lines that are not empty
--   and fit into the buffer (Turns), with one that is empty (Blocked), and as one function (Session).
--   A print that reads beyond the mapping may kill the child, or go on with a text that is not known.
--   Exchange/Names is what comes before the loops and behind them: the names of semaphores and memory,
--   which calls may fail, and what a name that was left does to the next run (Names/Ends).
-- - Ipc/MessageQueue: ipc/mqueue.cpp, with either process first.
-- - Ipc/Signals: ipc/signals.cpp, with the delivery of signals as steps.
-- - Ipc/Pipe: ipc/pipe_intro.cpp; Pipe/Others: ipc/dup.cpp and ipc/mkfifo_intro.cpp.
--
-- Processes: descriptors that processes share or inherit. Files is a write through one description, ForkFd
-- is processes_and_threads/fork/fork_fd.cpp, ExecFd is exec/exec_fd.cpp with exec/writer.cpp.
--
-- Futures: structured_concurrency/future.cpp, async.cpp and shared_future.cpp as one step relation, with
-- ints of 32 bits whose overflow has no meaning.
-- Continuations: structured_concurrency/continuations.cpp over stdexec as an interface with laws.
--
-- Conditions: synchronization_primitives/condition_variable. CvLock is condvar_intro.cpp over Threads,
-- Worker is condition_variable_any.cpp as a step relation of its own.
--
-- Not modelled: what only calls libraries or prints, the bodies that the channels of tasks leave to the
-- reader, and the tests of those.
pub mod Prelude
pub mod Threads
pub mod LockFree
pub mod Locks
pub mod Atomics
pub mod Ipc
pub mod ThreadPool
pub mod Tasks
pub mod Barrier
pub mod Processes
pub mod Futures
pub mod Continuations
pub mod Conditions
pub mod Hw4
