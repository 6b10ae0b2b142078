-- ===== src/EventLoop/Functions/Words.antt =====
-- A pointer written to memory byte by byte and read back (src/event_loop.cc).
use hcproxy.Common.{ℕ, zero, suc, ◌/◌, ◌^◌, ◌<◌, ◌≡◌, refl, arith, length}
use hcproxy.EventLoop.Functions.{to_bytes, of_bytes}

pub length-to_bytes : (n x : ℕ) → length (to_bytes n x) ≡ n
unfolding to_bytes
length-to_bytes zero x = refl
length-to_bytes (suc n) x = omega (arith, length-to_bytes n (x / 256))

-- Reading gives what was written, if the number fits.
pub of_bytes-to_bytes : (n x : ℕ) → x < 256 ^ n → of_bytes (to_bytes n x) ≡ x
unfolding to_bytes of_bytes
of_bytes-to_bytes zero x h = omega (arith, h)
of_bytes-to_bytes (suc n) x h =
    let small : x / 256 < 256 ^ n = omega (arith, h) in
    omega (arith, of_bytes-to_bytes n (x / 256) small)
