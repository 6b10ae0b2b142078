-- ===== src/Forwarder/Causes.antt =====
-- Why `WriteFrom` and `ReadTo` of src/forwarder.cc report what they report.
use hcproxy.Common.{ℕ, ◌-◌, ◌<◌, ◌≡◌, ◌≢◌, true, false, Option, some, []}
use hcproxy.Parser.{Bytes, ReadResult, received, failed, eagain}
use hcproxy.Forwarder.{
  IoStatus, data_moved, eof, error, no_op, Buffer, SpliceResult, moved, stopped, Kernel,
  would_block,
}

-- What `splice` into the pipe has returned, and so what `WriteFrom` reports: bytes, that there will
-- be no more, that there are none yet, or an error.
pub data Fills : ReadResult → IoStatus → Bytes → Type 0 where
  some_came : {c : Bytes} → c ≢ [] → Fills (received c) data_moved c
  none_to_come : Fills (received []) eof []
  none_yet : Fills (failed eagain) no_op []
  broke_off : {e : ℕ} → e ≢ eagain → Fills (failed e) error []

-- What `WriteFrom` goes by: a pipe that is full, or `splice` for as much as there is room for.
pub data Filling {W : Type 0} (k : Kernel W) (fd : ℕ) (w : W) (b : Buffer)
    : IoStatus → Bytes → W → Type 0 where
  no_room : b.size ≡ b.capacity → Filling k fd w b no_op [] w
  asked :
      {s : IoStatus} {c : Bytes}
      → b.size < b.capacity
      → Fills (k.splice_in fd (b.capacity - b.size) w).0 s c
      → Filling k fd w b s c (k.splice_in fd (b.capacity - b.size) w).1

-- What `splice` out of a pipe that holds `size` bytes has returned, and so what `ReadTo` reports:
-- that bytes were taken, that none could be taken and they are all still there, that they are not, or
-- another error.
pub data Drains (size : ℕ) : SpliceResult → IoStatus → ℕ → Type 0 where
  some_went : {n : ℕ} → 0 < n → Drains size (moved n) data_moved n
  none_went : Drains size (stopped eagain (some size)) no_op 0
  some_lost : {left : ℕ} → left ≢ size → Drains size (stopped eagain (some left)) error 0
  splice_failed : {e : ℕ} {left : Option ℕ} → e ≢ eagain → Drains size (stopped e left) error 0

-- What `ReadTo` goes by: an empty pipe, into which more can come or not, a socket that takes
-- nothing now, or `splice` of all that the pipe holds.
pub data Draining {W : Type 0} (k : Kernel W) (fd : ℕ) (w : W) (b : Buffer)
    : IoStatus → ℕ → W → Type 0 where
  waits : b.size ≡ 0 → b.write_open ≡ true → Draining k fd w b no_op 0 w
  at_end : b.size ≡ 0 → b.write_open ≡ false → Draining k fd w b eof 0 w
  not_ready : b.size ≢ 0 → would_block (k.probe fd w) ≡ true → Draining k fd w b no_op 0 w
  offered :
      {s : IoStatus} {n : ℕ}
      → b.size ≢ 0
      → would_block (k.probe fd w) ≡ false
      → Drains b.size (k.splice_out b.queued fd b.size w).0 s n
      → Draining k fd w b s n (k.splice_out b.queued fd b.size w).1
