-- ===== src/Forwarder.antt =====
-- `Buffer` of src/forwarder.cc, a pipe between two sockets. The kernel's part is a parameter, with a
-- state of its own. A descriptor of the pipe is known by whether it is open, and `queued` is what
-- the pipe holds. Sizes are natural numbers: where the source checks `size_ >= 0` after subtracting,
-- the model checks that the number subtracted is not larger.
pub mod Causes
pub mod Transfer
pub mod Link
pub mod Start
pub mod Entry
use hcproxy.Common.{
  ℕ, ◌+◌, ◌-◌, Bool, true, false, not, ◌&&◌, Option, none, some, List, [], ◌∷◌, ◌++◌, Outcome, ok,
  fatal, ◌>>=◌, ◌>>◌, check, ltb, leb, ◌==◌, if◌then◌else◌, length, drop,
}
use hcproxy.Parser.{Bytes, ReadResult, received, failed, eagain}

pub data IoStatus : Type 0 where
  data_moved eof error no_op : IoStatus

-- `class Buffer`: `pipe_[0] >= 0` is `read_open`, `pipe_[1] >= 0` is `write_open`
pub record Buffer : Type 0 where
  pub capacity : ℕ
  pub size : ℕ
  pub read_open : Bool
  pub write_open : Bool
  pub queued : Bytes

-- the result of `splice` out of the pipe: the number of bytes, or -1 with an `errno` and the number
-- that FIONREAD finds in the pipe afterwards, `none` if that `ioctl` fails
pub data SpliceResult : Type 0 where
  moved : ℕ → SpliceResult
  stopped : (errno : ℕ) (left : Option ℕ) → SpliceResult

-- The system calls. `splice_in` is `splice` from a socket into the pipe, up to a number of bytes, and
-- `splice_out` from the pipe, which holds these bytes, into a socket; `probe` is the `errno` of a
-- write of no bytes, and `none` for success; `close` answers whether it returned 0.
pub record Kernel (W : Type 0) : Type 0 where
  pub splice_in : (fd n : ℕ) → W → ReadResult × W
  pub splice_out : Bytes → (fd n : ℕ) → W → SpliceResult × W
  pub probe : (fd : ℕ) → W → Option ℕ
  pub close : Bool

abbrev pub would_block : Option ℕ → Bool
would_block none = false
would_block (some e) = e == eagain

-- what a transfer returns: its status, the buffer and the kernel's state after it
abbrev pub Io : Type 0 → Type 0
Io W = IoStatus × Buffer × W

abbrev int_max : ℕ
int_max = 2147483647

-- `Buffer::Init`: the results of `pipe`, as its `errno`, of F_SETPIPE_SZ, as the capacity, where 0
-- stands for a failure, and of F_GETPIPE_SZ on the two ends
unfoldable pub init :
    (size_bytes : ℕ)
    → (pipe : Option ℕ) → (set_size read_size write_size : ℕ) → Outcome (Option Buffer)
init size_bytes (some errno) set_size read_size write_size = do
  check (ltb 0 size_bytes && ltb size_bytes int_max)
  check (if errno == 24 then true else errno == 23)
  ok none
init size_bytes none set_size read_size write_size = do
  check (ltb 0 size_bytes && ltb size_bytes int_max)
  check (ltb 0 set_size)
  check (read_size == set_size)
  check (write_size == set_size)
  ok (
      some (record {
        capacity = set_size;
        size = 0;
        read_open = true;
        write_open = true;
        queued = [];
      }))

-- `Buffer::Write`, where `written` is what `write` returns
unfoldable pub write : Bytes → (written : ℕ) → Buffer → Outcome Buffer
write bytes written b = do
  check (leb b.size b.capacity)
  check (leb (length bytes) (b.capacity - b.size))
  check b.write_open
  check (written == length bytes)
  let b = record b { size = b.size + length bytes; queued = b.queued ++ bytes }
  check (leb b.size b.capacity)
  ok b

-- `CHECK(ioctl(pipe_[0], FIONREAD, &len) == 0)`
unfoldable pub in_pipe : Option ℕ → Outcome ℕ
in_pipe none = fatal
in_pipe (some n) = ok n

module _ {W : Type 0} (k : Kernel W) where
  -- `CHECK(close(pipe_[1]) == 0); pipe_[1] = -1;` and the same with `pipe_[0]`
  abbrev pub close_write : IoStatus → Buffer → W → Outcome (Io W)
  close_write s b w = do check k.close; ok (s, record b { write_open = false }, w)

  abbrev pub close_read : IoStatus → Buffer → W → Outcome (Io W)
  close_read s b w = do check k.close; ok (s, record b { read_open = false }, w)

  -- what `WriteFrom` does with the result of `splice`
  take_in : ReadResult → Buffer → W → Outcome (Io W)
  take_in (failed e) b w = if e == eagain then ok (no_op, b, w) else close_write error b w
  take_in (received []) b w = close_write eof b w
  take_in (received (x ∷ xs)) b w =
      let b = record b { size = b.size + length (x ∷ xs); queued = b.queued ++ x ∷ xs } in
      do check (leb b.size b.capacity); ok (data_moved, b, w)

  -- `Buffer::WriteFrom`
  pub write_from : (fd : ℕ) → Buffer → W → Outcome (Io W)
  unfolding take_in
  write_from fd b w = do
    check b.write_open
    check (leb b.size b.capacity)
    if b.size == b.capacity
        then ok (no_op, b, w)
        else (let (r, w) = k.splice_in fd (b.capacity - b.size) w in take_in r b w)

  -- what `ReadTo` does with the result of `splice`
  give_out : SpliceResult → Buffer → W → Outcome (Io W)
  unfolding in_pipe
  give_out (stopped e left) b w =
      if e == eagain
      then (in_pipe left >>= λ n. if n == b.size then ok (no_op, b, w) else close_read error b w)
      else close_read error b w
  give_out (moved n) b w = do
    check (not (n == 0))
    check (leb n b.size)
    let b = record b { size = b.size - n; queued = drop n b.queued }
    check (leb b.size b.capacity)
    ok (data_moved, b, w)

  -- `Buffer::ReadTo`
  pub read_to : (fd : ℕ) → Buffer → W → Outcome (Io W)
  unfolding give_out
  read_to fd b w = do
    check b.read_open
    if b.size == 0
        then (if b.write_open then ok (no_op, b, w) else close_read eof b w)
        else if would_block (k.probe fd w)
        then ok (no_op, b, w)
        else (let (r, w) = k.splice_out b.queued fd b.size w in give_out r b w)
