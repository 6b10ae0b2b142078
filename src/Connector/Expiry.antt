-- ===== src/Connector/Expiry.antt =====
-- The timeouts of the connector's event loop: src/connector.cc under src/event_loop.cc.
use hcproxy.Common.{ℕ, Bool, ◌<◌, ◌≡◌, true, refl, List, [], ◌∷◌, arith, Outcome}
use hcproxy.NodeList.{Ptr}
use hcproxy.Epoll.{Ctl, IsDocumented}
use hcproxy.EventLoop.{EventLoop}
use hcproxy.EventLoop.Invariant.{Inv}
use hcproxy.EventLoop.Remove.{self_out}
use hcproxy.EventLoop.Cycle.{Callbacks}
use hcproxy.EventLoop.Cycle.Expiry.{Retires}
use hcproxy.Addr.{SockOpt}
use hcproxy.Connector.{ConnectHandler, destroy, on_event, on_timeout}
use hcproxy.Connector.Finish.{on_timeout-Ended}

module _ (epoll_ctl : Ctl) (close : ℕ → Bool) (getsockopt : ℕ → SockOpt)
    (pop_func : EventLoop ConnectHandler → Outcome (EventLoop ConnectHandler)) where
  -- `ConnectEventHandler` as the event loop sees it
  abbrev pub callbacks : Callbacks ConnectHandler
  callbacks = record {
    on_event = on_event epoll_ctl close getsockopt;
    on_timeout = on_timeout epoll_ctl close getsockopt;
    pop_func = pop_func;
    destroy = destroy;
  }

  module _ (documented : IsDocumented epoll_ctl) (closes : (fd : ℕ) → close fd ≡ true) where
    pub on_timeout-Retires :
        {t : ℕ} (w : EventLoop ConnectHandler) (p : Ptr) (ys : List Ptr)
        → Inv w t (p ∷ ys)
        → 1 < (w.handlers p).ref_count
        → Retires callbacks w t p ys
    on_timeout-Retires w p ys v r =
        let e =
          on_timeout-Ended epoll_ctl documented close closes getsockopt w p [] ys v
            v.ordered.linked.0 r in
        record {
          after = e.after;
          order = ys;
          returns = e.returns;
          inv = e.inv;
          fewer = omega arith;
          out = self_out w p [] ys w.expire v;
          alive = e.alive;
          held = omega (arith, e.held);
          left = (e.after.handlers p).derived;
          destroys = refl;
        }
