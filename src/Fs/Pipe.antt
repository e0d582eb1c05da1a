-- ===== src/Fs/Pipe.antt =====
-- os/src/fs/pipe.rs: the ring buffer behind a pipe, and the loops of `read` and `write`.
pub mod Contents
pub mod Transfer
pub mod Stream
mod Tests
use t_core.Base.{
  ◌>>=◌, ◌>>◌, ℕ, zero, suc, ◌+◌, ◌-◌, ◌%◌, Bool, true, false, not, Option, none, some, List, [],
  ◌∷◌, ◌++◌, ltb, ◌==◌, if◌then◌else◌, get_elem?, set, replicate, assert,
}

abbrev pub ring_buffer_size : ℕ
ring_buffer_size = 32

pub data RingBufferStatus : Type 0 where
  full empty normal : RingBufferStatus

-- `write_end` names the writing end that the weak reference points to.
pub record PipeRingBuffer : Type 0 where
  pub arr : List ℕ
  pub head : ℕ
  pub tail : ℕ
  pub status : RingBufferStatus
  pub write_end : Option ℕ

pub new : PipeRingBuffer
new = record {
  arr = replicate ring_buffer_size 0;
  head = 0;
  tail = 0;
  status = empty;
  write_end = none;
}

pub set_write_end : PipeRingBuffer → ℕ → PipeRingBuffer
set_write_end r w = record r { write_end = some w }

-- `none` is an index out of range.
pub write_byte : PipeRingBuffer → ℕ → Option PipeRingBuffer
write_byte r byte = do
  assert (ltb r.tail ring_buffer_size)
  let tail = (r.tail + 1) % ring_buffer_size
  some (record r {
    arr = set r.arr r.tail byte;
    tail = tail;
    status = if tail == r.head then full else normal;
  })

pub read_byte : PipeRingBuffer → Option (ℕ × PipeRingBuffer)
read_byte r = do
  c ← get_elem? r.arr r.head
  let head = (r.head + 1) % ring_buffer_size
  some (c, record r { head = head; status = if head == r.tail then empty else normal })

pub is_empty : RingBufferStatus → Bool
is_empty empty = true
is_empty _ = false

pub is_full : RingBufferStatus → Bool
is_full full = true
is_full _ = false

pub available_read : PipeRingBuffer → ℕ
unfolding is_empty
available_read r =
    if is_empty r.status
    then 0
    else if ltb r.head r.tail
    then r.tail - r.head
    else r.tail + ring_buffer_size - r.head

pub available_write : PipeRingBuffer → ℕ
unfolding is_full
available_write r = if is_full r.status then 0 else ring_buffer_size - available_read r

-- `alive w`: the writing end `w` has an owner. A ring with no writing end set panics.
pub all_write_ends_closed : (ℕ → Bool) → PipeRingBuffer → Option Bool
all_write_ends_closed alive r = do w ← r.write_end; some (not (alive w))

-- `Pipe`: an end of a pipe, and the ring buffer that it shares, by name.
pub record Pipe : Type 0 where
  pub readable : Bool
  pub writable : Bool
  pub buffer : ℕ

pub read_end_with_buffer : ℕ → Pipe
read_end_with_buffer b = record { readable = true; writable = false; buffer = b }

pub write_end_with_buffer : ℕ → Pipe
write_end_with_buffer b = record { readable = false; writable = true; buffer = b }

-- A new ring named `b`, whose writing end is named `w`: (read end, write end, ring).
pub make_pipe : ℕ → ℕ → Pipe × Pipe × PipeRingBuffer
make_pipe b w = (read_end_with_buffer b, write_end_with_buffer b, set_write_end new w)

-- A call of `read`: the length of the user buffer, the cells that its iterator has left, the bytes
-- that it has stored and their number.
pub record ReadCall : Type 0 where
  pub want_to_read : ℕ
  pub cells : ℕ
  pub stored : List ℕ
  pub already_read : ℕ

store : ReadCall → ℕ → ReadCall
store c byte = record c {
  cells = c.cells - 1;
  stored = c.stored ++ byte ∷ [];
  already_read = c.already_read + 1;
}

-- What a round of a loop leaves: `some n` when the call returns `n`, and the ring and the call.
-- The `for` loop of `read`, over the rounds left.
pub read_for : ℕ → PipeRingBuffer → ReadCall → Option (Option ℕ × PipeRingBuffer × ReadCall)
unfolding store
read_for zero r c = some (none, r, c)
read_for (suc n) r c =
    let more : Option (Option ℕ × PipeRingBuffer × ReadCall) = do
      (byte, r') ← read_byte r
      let c' = store c byte
      let rest = read_for n r' c'
      if c'.already_read == c.want_to_read then some (some c.want_to_read, r', c') else rest
    in if c.cells == 0 then some (some c.already_read, r, c) else more

-- One round of the outer loop; it ends with `none` where the task yields or goes round again.
pub read_round :
    (ℕ → Bool) → PipeRingBuffer → ReadCall → Option (Option ℕ × PipeRingBuffer × ReadCall)
read_round alive r c =
    let closed : Option (Option ℕ × PipeRingBuffer × ReadCall) = do
      all_closed ← all_write_ends_closed alive r
      some ((if all_closed then some c.already_read else none), r, c)
    in let loop_read = available_read r in if loop_read == 0 then closed else read_for loop_read r c

-- A call of `write`: the bytes that the iterator has left.
pub record WriteCall : Type 0 where
  pub want_to_write : ℕ
  pub bytes : List ℕ
  pub already_write : ℕ

pub write_for : ℕ → PipeRingBuffer → ℕ → List ℕ → ℕ → Option (Option ℕ × PipeRingBuffer × WriteCall)
write_for zero r want bytes done =
    some (none, r, record { want_to_write = want; bytes = bytes; already_write = done })
write_for (suc n) r want [] done =
    some (some done, r, record { want_to_write = want; bytes = []; already_write = done })
write_for (suc n) r want (byte ∷ bytes) done = do
  r' ← write_byte r byte
  let c' : WriteCall = record { want_to_write = want; bytes = bytes; already_write = done + 1 }
  let rest = write_for n r' want bytes (done + 1)
  if done + 1 == want then some (some want, r', c') else rest

pub write_round : PipeRingBuffer → WriteCall → Option (Option ℕ × PipeRingBuffer × WriteCall)
write_round r c =
    let loop_write = available_write r in
    if loop_write == 0
    then some (none, r, c)
    else write_for loop_write r c.want_to_write c.bytes c.already_write
