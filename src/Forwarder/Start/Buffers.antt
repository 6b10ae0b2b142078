-- ===== src/Forwarder/Start/Buffers.antt =====
-- `Init` and `Write` of `Buffer` in src/forwarder.cc.
use hcproxy.Common.{
  ℕ, ◌+◌, ◌≤◌, ◌<◌, ◌≡◌, true, none, some, [], ◌++◌, arith, ok, fatal, ◌⊎◌, length, length-append,
}
use hcproxy.Forwarder.{Buffer, init, write}
use hcproxy.Forwarder.Transfer.{IsSound}
use hcproxy.Parser.{Bytes}
use hcproxy.Forwarder.Start.{PipeCalls}

-- What pipe(2) and fcntl(2) document: a pipe is refused for want of descriptors; F_SETPIPE_SZ may
-- fail, as it does with EPERM above the limits for pipes, and otherwise the capacity is what was asked
-- for, rounded up, and a page at least; and both ends have that capacity.
pub record IsDocumented (size_bytes : ℕ) (c : PipeCalls) : Type 0 where
  pub refused : (e : ℕ) → c.errno ≡ some e → (e ≡ 23) ⊎ (e ≡ 24)
  pub rounds_up : 0 < c.set_size → (size_bytes ≤ c.set_size) × (4096 ≤ c.set_size)
  pub agrees : 0 < c.set_size → (c.read_size ≡ c.set_size) × (c.write_size ≡ c.set_size)

-- A size that `Init` accepts.
abbrev pub IsSize : ℕ → Type 0
IsSize n = (0 < n) × (n < 2147483647)

abbrev pub opened : ℕ → Buffer
opened n = record { capacity = n; size = 0; read_open = true; write_open = true; queued = [] }

module _ (size_bytes : ℕ) (c : PipeCalls) (d : IsDocumented size_bytes c)
    (s : IsSize size_bytes) where
  pub init-opened :
      c.errno ≡ none
      → 0 < c.set_size
      → init size_bytes c.errno c.set_size c.read_size c.write_size ≡ ok (some (opened c.set_size))
  unfolding init
  init-opened e h = rw e (ground (arith, s, d.agrees h, h))

  -- F_SETPIPE_SZ fails
  pub init-unsized :
      c.errno ≡ none
      → c.set_size ≡ 0
      → init size_bytes c.errno c.set_size c.read_size c.write_size ≡ fatal
  unfolding init
  init-unsized e h = rw e (ground (arith, s, h))

  pub init-refused :
      (e : ℕ)
      → c.errno ≡ some e
      → init size_bytes c.errno c.set_size c.read_size c.write_size ≡ ok none
  unfolding init
  init-refused e i = rw i (ground (arith, s, d.refused e i))

-- what `Write` leaves
abbrev pub with_bytes : Bytes → Buffer → Buffer
with_bytes bytes b = record b { size = b.size + length bytes; queued = b.queued ++ bytes }

pub write-ok :
    (bytes : Bytes) (b : Buffer)
    → b.size + length bytes ≤ b.capacity
    → b.write_open ≡ true
    → write bytes (length bytes) b ≡ ok (with_bytes bytes b)
unfolding write
write-ok bytes b h o = ground (arith, h, o)

pub with_bytes-IsSound :
    (bytes : Bytes) (b : Buffer)
    → IsSound b
    → b.size + length bytes ≤ b.capacity
    → IsSound (with_bytes bytes b)
with_bytes-IsSound bytes b s h = record {
  counts = omega (arith, s.counts, length-append b.queued bytes);
  fits = h;
}
