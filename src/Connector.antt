-- ===== src/Connector.antt =====
-- `ConnectAsync`, `ConnectEventHandler` and `Connector::Connect` of src/connector.cc. The system
-- calls are parameters: `socket`, `setsockopt`, `connect` and `close` answer with what the source
-- looks at, and `getsockopt` with the error of a socket.
pub mod Finish
pub mod Connect
pub mod Expiry
pub mod Delivery
pub mod Start
use hcproxy.Common.{
  ℕ, ◌+◌, Bool, true, false, ◌||◌, Option, none, some, List, [], ◌∷◌, Outcome, ok, ◌>>=◌, ◌>>◌,
  check, ◌==◌, if◌then◌else◌,
}
use hcproxy.NodeList.{Ptr}
use hcproxy.Bits.{has_bits, epoll_out, epoll_err}
use hcproxy.Epoll.{Ctl}
use hcproxy.Addr.{SockOpt, sock_error}
use hcproxy.EventLoop.{Handler, EventLoop, set_handler, deref, add, remove}

-- What a handler does to the world, newest first. `called none` is `cb_(-1)`.
pub data Effect : Type 0 where
  closed : ℕ → Effect
  called : Option ℕ → Effect

-- `class ConnectEventHandler`
pub record ConnectHandler : Type 0 where
  pub effects : List Effect

abbrev pub etime : ℕ
etime = 62

-- the destructor is that of `EventHandler`
abbrev pub destroy : ConnectHandler → Outcome ConnectHandler
destroy = ok

pub effect : Ptr → Effect → EventLoop ConnectHandler → Outcome (EventLoop ConnectHandler)
effect p e w = do
  h ← deref p w
  ok (set_handler p (record h { derived = record { effects = e ∷ h.derived.effects } }) w)

-- `CHECK(close(fd()) == 0)`
close_fd : (ℕ → Bool) → Ptr → EventLoop ConnectHandler → Outcome (EventLoop ConnectHandler)
close_fd close p w = do h ← deref p w; check (close h.fd); effect p (closed h.fd) w

module _ (epoll_ctl : Ctl) (close : ℕ → Bool) (getsockopt : ℕ → SockOpt) where
  pub finish : ℕ → Ptr → EventLoop ConnectHandler → Outcome (EventLoop ConnectHandler)
  finish err p w = do
    w ← remove epoll_ctl destroy p w
    if err == 0
        then (do h ← deref p w; effect p (called (some h.fd)) w)
        else (close_fd close p w >>= effect p (called none))

  pub on_event : Ptr → ℕ → EventLoop ConnectHandler → Outcome (EventLoop ConnectHandler)
  on_event p events w =
      if has_bits events epoll_err || has_bits events epoll_out
      then (do h ← deref p w; err ← sock_error (getsockopt h.fd); finish err p w)
      else ok w

  pub on_timeout : Ptr → EventLoop ConnectHandler → Outcome (EventLoop ConnectHandler)
  on_timeout p w = finish etime p w
