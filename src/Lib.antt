-- ===== src/Lib.antt =====
-- Homemade-OS: a 32-bit x86 kernel in C. This library models parts of the kernel that carry its own
-- logic above the hardware.
--
-- The parts modelled, and how they interact:
--
-- Lock. src/kernel/task/exclusivelock.c. `acquireExLock` and `releaseExLock` run a test or an
--   update of an instance under a spinlock, and put the caller in the instance's queue or resume
--   the tasks the update names (Lock.Queue). The semaphore (Lock.Semaphore) and the reader-writer
--   lock (Lock.ReaderWriter) are instances: `_acquireSemaphore` is take_quota, `_releaseSemaphore`
--   is give_quota, `_acquireReaderLock` is take_reader, `_releaseReaderWriterLock` is give_lock,
--   and so on with the function's own name where it is exported. One call is one step, since it
--   runs under the lock. A blocked caller is in the queue, and a release names the tasks that it
--   resumes. The queues are lists, in the order in which popQueue takes the tasks.
--   Lock.Semaphore.Fifo and Lock.ReaderWriter.Exclusion run any sequence of calls.
--
-- Fifo. src/kernel/io/fifoarray.c, on top of the semaphore. Element sizes are not modelled: an
--   element is its list of bytes, and a slot holds one. Fifo.Queue is the specification, a bounded
--   queue; Fifo.Window and Fifo.Refine relate the circular buffer to it, Fifo.Run runs any sequence
--   of calls by one caller, and Fifo.Interleave lets the locked parts of any number of calls
--   interleave.
--
-- Tcp. src/kernel/io/network/tcp.c: the sequence numbers (Tcp.Sequence), the receive window
--   (Tcp.Receive) and the transmit window. Tcp.Receive.Store is about the bytes of a segment in the
--   buffer, Extend and Copy about the readable part, Deliver, Serve and Finish about the readers,
--   InOrder about a segment that arrives in order. The transmit window (Tcp.Transmit) keeps its
--   buffers as a list, with `current` a place in it; Stream says which bytes it holds, Ack and Push
--   what acknowledgements and writes do to them, and Placed and Send which of them the next packet
--   takes.
--
-- Timer. src/kernel/io/timer.c: the list of events sorted by the ticks until they expire
--   (Timer.Insert), the loop of `handleTimerEvents` (Timer.Expire), one tick (Timer.Tick), and an
--   alarm over many ticks (Timer.Alarm). Ticks count modulo 2 ^ 50, and `TIMER_FREQUENCY` is 100.
--
-- Cmos. src/kernel/io/cmos.c: the days of the calendar (Cmos.Calendar), the seconds (Cmos.Clock)
--   and the encodings of the registers (Cmos.Registers). The values read from the registers are
--   arguments.
--
-- Network. src/kernel/io/network/internet.c, network.h and udp.c: headers as bytes at offsets in
--   memory (Network.Bytes), the checksums (Network.Checksum), the IP header (Network.Ip) and UDP
--   packets (Network.Udp). `initIPV4Header` is init_ipv4_header and so on. The TCP header, its
--   options and the packets of the handshake are in Tcp.Header, Tcp.Options and Tcp.Handshake, on
--   the same bytes; the transmit window there is the one of Tcp.Transmit.
--
-- Printk. src/kernel/main/printk.c: numbers and digits (Printk.Number), the specifiers that output
--   and input share (Printk.Format), output (Printk.Print) and input (Printk.Scan), and the
--   exchange of the two (Printk.Exchange). A `va_list` is a list of arguments; what is stored
--   through pointers is a list in order.
--
-- Task. src/kernel/task/taskmanager.c, the queues of tasks: the circular list (Task.Ring), which is
--   the queue of Lock.Queue, and the priority queues with `schedule` and `resume` (Task.Turns).
--   `pushQueue` is push_ring, `popQueue` is pop_ring, and `taskSwitch` is schedule without a
--   function and suspend with one. One processor takes the tasks.
--
-- Io. src/kernel/task/taskmanager.c, the I/O requests of a task: `pendIO` is pend_io and so on.
--   Io.Cancel is about who may complete or cancel a request, Io.Separate about the lists,
--   Io.CancelAll about the end of a task. Io.Wait lets the parts of `completeIO`, of the calls that
--   cancel and of `_waitIO` that run under a lock or on the semaphore interleave; Wakeup and Return
--   are about the task that waits.
--
-- Fat. src/kernel/file/fat.c: the table (Fat.Chain), `readByFAT` and the reading part of
--   `rwFATTask` (Fat.Read), names, directories and the loop of `openFATTask` (Fat.Directory), and
--   the list of the open files (Fat.Shared). What the disk gives, and in the loop of `openFATTask`
--   what a directory holds, are arguments.
--
-- Keyboard. src/kernel/io/keyboard.c: the tables (Keyboard.Keys), the scan codes and the keys
--   (Keyboard.Decode), and the mouse (Keyboard.Mouse). `scanCodeToKey` is scan_code_to_key; its
--   static variables are the state. A code or a byte is an argument, and the events are a list.
--
-- FifoFile. src/kernel/file/fifofile.c: the elements and the requests that wait are lists, and
--   `processFIFO` is process_fifo; FifoFile.Delivery is about what is read, FifoFile.Overtaken
--   about the order of the readers.
--
-- Opened. src/kernel/file/file.c: the count of the requests of an opened file (`addFileIOCount` is
--   add_file_io_count), and its phases (Opened.Life). An I/O request of a file is an event.
--
-- Slab. src/kernel/memory/slab.c: the units of a slab (Slab.Units), and the manager, whose lists of
--   slabs are kept in order (Slab.Leak). What the page allocator gives is an argument.
--
-- Buddy. src/kernel/memory/buddy.c: the blocks by their index, with the list of free blocks at each
--   order; Buddy.Account is about the sum of their sizes and releasing, Buddy.Split and
--   Buddy.Allocate about allocating. An assertion that fails is a result of its own.
--
-- Text. src/lib/common.c: memory, strings and byte order. Text.Endian, Text.Equal and Text.Index
--   are about the conversions of byte order, the comparison and the search of a character;
--   Text.Wildcard is `matchWildcardString`, as a model that can be run.
--
-- Base. Shared Boolean tests, list operations over the native numbers, and arithmetic lemmas.
--
-- Numbers. A word of 32 bits is a number with its wrap written out (% 2 ^ 32). Subtraction is
--   written with 2 ^ 32 added where the C code may wrap. The counts of the locks are C `int`s that
--   never get negative, and their overflow is not modelled. A window size has to divide 2 ^ 32 for
--   the slots of the receive window to be consistent across the wrap of the sequence numbers, as
--   the kernel's 8192 does; it is a hypothesis (Tcp.Receive.Store.IsWindow).
--
-- Fuel. `tryAcquireAllSemaphore` and the loops of `handleTimerEvents`, `ackTransmitWindow` and
--   `copyTCPTransmitBuffer` run on fuel; the quota, the number of events and the number of buffers,
--   plus one, are enough, since each round but the last uses one up. `matchWildcardString` runs on
--   fuel too: at most the pattern's length and the string's, plus one. The loops of fat.c over a
--   chain need one round more than the chain has clusters, the loop over a path one more than it
--   has names, and the loop of `cancelAllIORequests` one more than the task has requests, which is
--   proved where results are stated; on a table with a cycle, `countClusterByFAT` does not end. A
--   number of w bits has at most w digits, and the loops of `snprintf` and `sscanf` need one round
--   more than the format has characters, and `printk` has the loop of `snprintf`
--   without its limit; a TCP header has at most 60 bytes, so 61 rounds end the loop over its
--   options unless the header is smaller than 20 bytes. The loop that extends the receive window
--   runs on the number of rounds left to its limit, which is the loop's own bound.
--
-- Not modelled: allocation failures, except where they are an argument of an operation; the
-- spinlocks and interrupt flags around each step; device drivers, boot code, paging and other
-- access to hardware; the sockets and tasks of the network stack, the tables of files and services
-- above fat.c, and the context switch of the scheduler.
pub mod Base
pub mod Lock
pub mod Fifo
pub mod FifoFile
pub mod Tcp
pub mod Timer
pub mod Cmos
pub mod Slab
pub mod Fat
pub mod Io
pub mod Keyboard
pub mod Task
pub mod Buddy
pub mod Text
pub mod Network
pub mod Opened
pub mod Printk
