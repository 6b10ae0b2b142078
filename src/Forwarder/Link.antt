-- ===== src/Forwarder/Link.antt =====
-- `LinkEventHandler` of src/forwarder.cc: the two links of a tunnel, in an event loop. `shutdown`
-- of a descriptor and a direction answers with its `errno`, or `none` for 0; `close` answers whether
-- it returned 0. The system calls on the pipes are those of the kernel `k`.
pub mod Sides
pub mod Close
pub mod Frame
pub mod Hold
pub mod Terminate
pub mod Shut
pub mod Flow
pub mod Fill
pub mod Drain
pub mod Forward
pub mod Renew
pub mod OnEvent
pub mod Release
pub mod Serve
pub mod Life
pub mod TimeOut
use hcproxy.Common.{
  ℕ, zero, suc, ◌+◌, Bool, true, false, not, ◌&&◌, ◌||◌, Option, none, some, Outcome, ok, stuck,
  ◌>>=◌, ◌>>◌, check, ◌==◌, if◌then◌else◌,
}
use hcproxy.NodeList.{Ptr}
use hcproxy.Bits.{has_bits, epoll_in, epoll_out, epoll_err, epoll_et}
use hcproxy.Epoll.{Ctl}
use hcproxy.Addr.{SockOpt, sock_error}
use hcproxy.EventLoop.{
  Handler, EventLoop, set_handler, deref, inc_ref, dec_ref, remove, modify, refresh,
}
use hcproxy.Forwarder.{Buffer, Kernel, IoStatus, data_moved, eof, error, no_op, write_from, read_to}

-- `class LinkEventHandler`, without the name for the log; and of the kernel, whether its descriptor
-- is still open, since closing one that is not open would fail the `CHECK`
pub record Link : Type 0 where
  pub out : Buffer
  pub readable : Bool
  pub writable : Bool
  pub other : Ptr
  pub fd_open : Bool

abbrev pub shut_rd : ℕ
shut_rd = 0

abbrev pub shut_wr : ℕ
shut_wr = 1

abbrev pub is_open : Link → Bool
is_open x = x.readable || x.writable

abbrev pub set_link : Ptr → Link → EventLoop Link → EventLoop Link
set_link p x w = set_handler p (record (w.handlers p) { derived = x }) w

-- the loop and the kernel
pub record Net (W : Type 0) : Type 0 where
  pub loop : EventLoop Link
  pub kernel : W

-- what a transfer leads to: some data was moved or an end was reached, nothing happened, or the
-- tunnel was torn down
pub data Half : Type 0 where
  io idle broken : Half

abbrev pub is_io : Half → Bool
is_io io = true
is_io _ = false

-- `~LinkEventHandler` and then `~Buffer`
pub destroy : {W : Type 0} → Kernel W → Link → Outcome Link
destroy k x = do
  check (not x.readable && not x.writable)
  check (if x.out.read_open || x.out.write_open then k.close else true)
  ok (record x { out = record x.out { read_open = false; write_open = false } })

module _ {W : Type 0} (epoll_ctl : Ctl) (close : ℕ → Bool) (shutdown : ℕ → ℕ → Option ℕ)
    (k : Kernel W) where
  -- `Close`
  unfoldable pub close_link : Ptr → EventLoop Link → Outcome (EventLoop Link)
  close_link p w = do
    h ← deref p w
    if is_open h.derived
        then (do
          let w = set_link p (record h.derived { readable = false; writable = false }) w
          w ← dec_ref (destroy k) h.derived.other w
          w ← remove epoll_ctl (destroy k) p w
          h ← deref p w
          check (h.derived.fd_open && close h.fd)
          ok (set_link p (record h.derived { fd_open = false }) w))
        else ok w

  -- `Terminate`
  unfoldable pub terminate : Ptr → EventLoop Link → Outcome (EventLoop Link)
  terminate p w = do w ← close_link p w; h ← deref p w; close_link h.derived.other w

  -- `CHECK(shutdown(…) == 0 || errno == ENOTCONN)`
  unfoldable pub shut_ok : (fd how : ℕ) → Bool
  shut_ok fd how = elim (shutdown fd how) [ none ↦ true | some e ↦ e == 107 ]

  -- `CloseForReading`
  unfoldable pub close_for_reading : Ptr → EventLoop Link → Outcome (EventLoop Link)
  close_for_reading p w = do
    h ← deref p w
    check h.derived.readable
    if h.derived.writable
        then (do
          let w = set_link p (record h.derived { readable = false }) w
          w ← modify epoll_ctl p (epoll_out + epoll_et) w
          check (shut_ok h.fd shut_rd)
          ok w)
        else close_link p w

  -- `CloseForWriting`
  unfoldable pub close_for_writing : Ptr → EventLoop Link → Outcome (EventLoop Link)
  close_for_writing p w = do
    h ← deref p w
    check h.derived.writable
    if h.derived.readable
        then (do
          let w = set_link p (record h.derived { writable = false }) w
          w ← modify epoll_ctl p (epoll_in + epoll_et) w
          check (shut_ok h.fd shut_wr)
          ok w)
        else close_link p w

  -- the two `switch` statements of `ForwardFromOther`, on what `WriteFrom` and `ReadTo` report
  unfoldable pub after_fill :
      Ptr → Ptr → IoStatus → EventLoop Link → Outcome (Half × EventLoop Link)
  after_fill p other data_moved w = ok (io, w)
  after_fill p other eof w = do w ← close_for_reading other w; ok (io, w)
  after_fill p other error w = do w ← terminate p w; ok (broken, w)
  after_fill p other no_op w = ok (idle, w)

  unfoldable pub after_drain : Ptr → IoStatus → EventLoop Link → Outcome (Half × EventLoop Link)
  after_drain p data_moved w = ok (io, w)
  after_drain p eof w = do w ← close_for_writing p w; ok (io, w)
  after_drain p error w = do w ← terminate p w; ok (broken, w)
  after_drain p no_op w = ok (idle, w)

  abbrev pub with_kernel : W → Half × EventLoop Link → Half × Net W
  with_kernel kernel (h, w) = (h, record { loop = w; kernel = kernel })

  -- the part of the loop's body for each of them
  unfoldable pub fill : Ptr → Net W → Outcome (Half × Net W)
  fill p n = do
    h ← deref p n.loop
    o ← deref h.derived.other n.loop
    if o.derived.readable
        then (write_from k o.fd h.derived.out n.kernel >>= λ (s, b, kernel).
            after_fill p h.derived.other s (set_link p (record h.derived { out = b }) n.loop)
            >>= λ r. ok (with_kernel kernel r))
        else ok (idle, n)

  unfoldable pub drain : Ptr → Net W → Outcome (Half × Net W)
  drain p n = do
    h ← deref p n.loop
    if h.derived.writable
        then (read_to k h.fd h.derived.out n.kernel >>= λ (s, b, kernel).
            after_drain p s (set_link p (record h.derived { out = b }) n.loop) >>= λ r.
            ok (with_kernel kernel r))
        else ok (idle, n)

  -- `ForwardFromOther`: the `while (true)`, with `res`, on fuel
  unfoldable pub forward_loop : ℕ → Ptr → Bool → Net W → Outcome (Bool × Net W)
  forward_loop zero p res n = stuck
  forward_loop (suc fuel) p res n = fill p n >>= λ (a, n). elim a [
    | broken ↦ ok (false, n)
    | x ↦ drain p n >>= λ (b, n). elim b [
      | broken ↦ ok (false, n)
      | y ↦ elim (is_io x || is_io y) [ true ↦ forward_loop fuel p true n | false ↦ ok (res, n) ]
    ]
  ]

  unfoldable pub forward_from_other : (fuel : ℕ) → Ptr → Net W → Outcome (Bool × Net W)
  forward_from_other fuel p n = forward_loop fuel p false n

  -- `Refresh`
  unfoldable pub refresh_open : (now : ℕ) → Ptr → Net W → Outcome (Net W)
  refresh_open now p n = do
    h ← deref p n.loop
    if is_open h.derived
        then (do loop ← refresh now p n.loop; ok (record n { loop = loop }))
        else ok n

  abbrev hold : Ptr → Net W → Outcome (Net W)
  hold p n = do loop ← inc_ref p n.loop; ok (record n { loop = loop })

  abbrev let_go : Ptr → Net W → Outcome (Net W)
  let_go p n = do loop ← dec_ref (destroy k) p n.loop; ok (record n { loop = loop })

  -- an operand of `|` in `Process`
  unfoldable pub operand : (on : Bool) → (fuel : ℕ) → Ptr → Net W → Outcome (Bool × Net W)
  operand on fuel p n = if on then forward_from_other fuel p n else ok (false, n)

  module _ (getsockopt : ℕ → SockOpt) (left_first : Bool) where
    -- `Process` of `OnEvent`. C++ leaves open which operand of `|` is evaluated first: `left_first` says.
    unfoldable pub process : (fuel events : ℕ) → Ptr → Ptr → Net W → Outcome (Bool × Net W)
    process fuel events p other n =
        if has_bits events epoll_err
        then (do
          h ← deref p n.loop
          e ← sock_error (getsockopt h.fd)
          loop ← terminate p n.loop
          ok (false, record n { loop = loop }))
        else if left_first
        then (operand (has_bits events epoll_out) fuel p n >>= λ (a, n).
            operand (has_bits events epoll_in) fuel other n >>= λ (b, n). ok (a || b, n))
        else (operand (has_bits events epoll_in) fuel other n >>= λ (b, n).
            operand (has_bits events epoll_out) fuel p n >>= λ (a, n). ok (a || b, n))

    -- `OnEvent`, where `clock i` is the `i`-th reading of the clock from here
    unfoldable pub link_on_event : (fuel : ℕ) → (clock : ℕ → ℕ) → Ptr → ℕ → Net W → Outcome (Net W)
    link_on_event fuel clock p events n = do
      h ← deref p n.loop
      n ← hold h.derived.other n
      n ←
          (process fuel events p h.derived.other n >>= λ (r, n).
          if r
          then (refresh_open (clock 0) p n >>= refresh_open (clock 1) h.derived.other)
          else ok n)
      h ← deref p n.loop
      let_go h.derived.other n

  -- `OnTimeout`
  pub link_on_timeout : Ptr → EventLoop Link → Outcome (EventLoop Link)
  link_on_timeout p w = do
    h ← deref p w
    w ← inc_ref h.derived.other w
    w ← terminate p w
    h ← deref p w
    dec_ref (destroy k) h.derived.other w
