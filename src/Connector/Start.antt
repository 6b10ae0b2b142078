-- ===== src/Connector/Start.antt =====
-- `Connector::Connect` of src/connector.cc, after `ConnectAsync`. The function that it schedules is
-- known by the handler it adds.
use hcproxy.Common.{ℕ, Bool, false, none, some, [], Outcome, ok, ◌>>=◌, Option}
use hcproxy.NodeList.{Ptr}
use hcproxy.Bits.{epoll_out}
use hcproxy.Epoll.{Ctl}
use hcproxy.EventLoop.{Handler, EventLoop, set_handler, add}
use hcproxy.EventLoop.Functions.{PipeKernel, Functions, schedule_or_run}
use hcproxy.Connector.{ConnectHandler, Effect, called}

-- the handler that the constructor makes
abbrev pub attempt_of : ℕ → Handler ConnectHandler
attempt_of fd = record {
  fd = fd;
  deadline = 0;
  registered = false;
  ref_count = 0;
  freed = false;
  derived = record { effects = [] };
}

abbrev pub Attempts : Type 0
Attempts = Functions Ptr × EventLoop ConnectHandler

-- `[this, eh]() { event_loop_.Add(eh, EPOLLOUT); }`
unfoldable pub add_attempt : Ctl → (now : ℕ) → Ptr → Attempts → Outcome Attempts
add_attempt epoll_ctl now p (s, w) = do w ← add epoll_ctl now p epoll_out w; ok (s, w)

-- `Connect`, by what `ConnectAsync` has returned: `none` is -1, and then `cb` is called with it. `p` is
-- where `new` puts the handler, `address` where it puts the function.
unfoldable pub connect :
    PipeKernel
    → Ctl
    → (now : ℕ) → (on_thread : Bool) → (address p : Ptr) → Option ℕ
    → Attempts
    → Outcome (Option Effect × Attempts)
connect k epoll_ctl now on_thread address p none r = ok (some (called none), r)
connect k epoll_ctl now on_thread address p (some fd) (s, w) = do
  r ←
      schedule_or_run k (add_attempt epoll_ctl now) on_thread address (some p)
        (s, set_handler p (attempt_of fd) w)
  ok (none, r)
