-- ===== src/Fifo.antt =====
-- src/kernel/io/fifoarray.c: a bounded FIFO of fixed-size elements over a circular buffer whose
-- length is a power of two, with a semaphore that counts the readable elements. An element is its
-- bytes; the buffer is the list of its slots, so `bufferLocation` yields a slot's index. What runs
-- under `fifo->lock` is one step.
pub mod Queue
pub mod Window
pub mod Refine
pub mod Run
pub mod Interleave
mod Tests
use homemade_os.Base.{
  ℕ, ◌+◌, ◌-◌, ◌%◌, ◌^◌, bit_and, Bool, true, false, Option, none, some, List, [], ◌∷◌, ltb, ◌==◌,
  if◌then◌else◌, get_or, set,
}
use homemade_os.Lock.Queue.{Task, Outcome, acquired, refused, blocked}
use homemade_os.Lock.Semaphore.{
  Semaphore, create_semaphore, try_acquire_semaphore, acquire_semaphore, release_semaphore,
}

abbrev pub Element : Type 0
Element = List ℕ

pub record Fifo : Type 0 where
  pub begin : ℕ
  pub data_length : ℕ
  pub buffer_length : ℕ
  pub buffer : List Element
  pub semaphore : Semaphore

-- `uintptr_t` arithmetic
abbrev pub word : ℕ → ℕ
word n = n % 2 ^ 32

-- `length & (length - 1)`, with the wrap of `length - 1` at 0
abbrev pub mask : ℕ → ℕ
mask length = word (length + 2 ^ 32 - 1)

unfoldable pub dequeue_buffer : Fifo → Fifo
dequeue_buffer f = record f {
  begin = bit_and (word (f.begin + 1)) (mask f.buffer_length);
  data_length = f.data_length - 1;
}

unfoldable pub buffer_location : Fifo → ℕ → ℕ
buffer_location f index = bit_and index (mask f.buffer_length)

-- The part of `_writeFIFO` behind `if(writeFlag)`.
unfoldable pub put_item : Fifo → Element → Fifo
unfolding buffer_location
put_item f item = record f {
  buffer = set f.buffer (buffer_location f (word (f.begin + f.data_length))) item;
  data_length = word (f.data_length + 1);
}

-- `_writeFIFO`: the flag, the element that was overwritten, and the new state. `overwrite` says
-- whether `overwrittenData` is a pointer.
unfoldable pub write_locked : (overwrite : Bool) → Fifo → Element → Bool × Option Element × Fifo
unfolding put_item dequeue_buffer
write_locked overwrite f item =
    if ltb f.data_length f.buffer_length
    then (true, none, put_item f item)
    else (if overwrite
        then (
          false,
          some (get_or f.buffer (buffer_location f f.begin) []),
          put_item (dequeue_buffer f) item,
        )
        else (false, none, f))

-- `_readFIFO`: the element read, or `none` for the result 0.
unfoldable pub read_locked : (do_read : Bool) → Fifo → Option Element × Fifo
unfolding dequeue_buffer buffer_location
read_locked do_read f =
    if ltb 0 f.data_length
    then (
      some (get_or f.buffer (buffer_location f f.begin) []),
      (if do_read then dequeue_buffer f else f),
    )
    else (none, f)

-- `if(r){ releaseSemaphore(fifo->semaphore); }`, with the tasks that it resumes.
unfoldable pub signal : Bool → Fifo → Fifo × List Task
signal false f = (f, [])
signal true f =
    let (s, woken) = release_semaphore f.semaphore in (record f { semaphore = s }, woken)

unfoldable pub write_fifo : Fifo → Element → Bool × Fifo
unfolding write_locked signal
write_fifo f item =
    let (r, old, f') = write_locked false f item in let (f'', woken) = signal r f' in (r, f'')

unfoldable pub overwrite_fifo : Fifo → Element → Bool × Option Element × Fifo
unfolding write_locked signal
overwrite_fifo f item =
    let (r, old, f') = write_locked true f item in let (f'', woken) = signal r f' in (r, old, f'')

unfoldable pub peek_fifo : Fifo → Option Element
unfolding read_locked
peek_fifo f = (read_locked false f).0

-- The branches of `readFIFONonBlock` on what `tryAcquireSemaphore` returns.
unfoldable pub read_if_acquired : Fifo → Outcome × Semaphore → Option Element × Fifo
unfolding read_locked
read_if_acquired f (acquired, s) = read_locked true (record f { semaphore = s })
read_if_acquired f (refused, s) = (none, record f { semaphore = s })
read_if_acquired f (blocked, s) = (none, record f { semaphore = s })

unfoldable pub read_fifo_non_block : Task → Fifo → Option Element × Fifo
unfolding read_if_acquired
read_fifo_non_block t f = read_if_acquired f (try_acquire_semaphore t f.semaphore)

unfoldable pub get_data_length : Fifo → ℕ
get_data_length f = f.data_length

-- `createFIFO` with the allocations made; `storage` is what the new array holds. `none` is the
-- failed assertion that the length is a power of two (or 0).
unfoldable pub create_fifo : List Element → ℕ → Option Fifo
create_fifo storage length =
    if bit_and length (mask length) == 0
    then some record {
      begin = 0;
      data_length = 0;
      buffer_length = length;
      buffer = storage;
      semaphore = create_semaphore 0;
    }
    else none
