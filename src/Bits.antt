-- ===== src/Bits.antt =====
-- `HasBits` of src/bits.h, and the event bits of epoll on Linux that the handlers test.
use Prim.Native.Nat.{bit_and}
use hcproxy.Common.{ℕ, Bool, ◌==◌}

unfoldable pub has_bits : ℕ → ℕ → Bool
has_bits bitmask bits = bit_and bitmask bits == bits

abbrev pub epoll_in : ℕ
epoll_in = 0x001

abbrev pub epoll_out : ℕ
epoll_out = 0x004

abbrev pub epoll_err : ℕ
epoll_err = 0x008

abbrev pub epoll_et : ℕ
epoll_et = 0x80000000
