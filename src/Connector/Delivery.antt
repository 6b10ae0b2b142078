-- ===== src/Connector/Delivery.antt =====
-- The events of the connector's event loop: src/connector.cc under src/event_loop.cc.
use hcproxy.Common.{
  ℕ, ◌+◌, ◌≤◌, ◌<◌, ◌≡◌, refl, ap, sym, ◌∙◌, subst, Bool, true, List, ◌∷◌, ◌++◌, arith, Outcome, ok,
  inl, inr, eq-cases, mem-split, ◌∈◌, ◌∉◌,
}
use hcproxy.NodeList.{Ptr}
use hcproxy.Epoll.{Ctl, IsDocumented}
use hcproxy.EventLoop.{Handler, EventLoop}
use hcproxy.EventLoop.Invariant.{Inv}
use hcproxy.EventLoop.Remove.{self_out}
use hcproxy.EventLoop.Cycle.Events.{num, Keeps}
use hcproxy.EventLoop.Cycle.Delivery.{IsSteady}
use hcproxy.Addr.{SockOpt, CanTell}
use hcproxy.Connector.{ConnectHandler, destroy, on_event}
use hcproxy.Connector.Finish.{Ended, on_event-Ended}
use hcproxy.Connector.Expiry.{callbacks}

module _ (w : EventLoop ConnectHandler) (p : Ptr) (now err : ℕ) (xs ys : List Ptr) (held : Ptr → ℕ)
    (v : Keeps destroy w now held) (s : v.order ≡ xs ++ p ∷ ys)
    (on : (w.handlers p).registered ≡ true) {r : Outcome (EventLoop ConnectHandler)}
    (e : Ended w p now err (xs ++ ys) r) where
  out : p ∉ xs ++ ys
  out = self_out w p xs ys w.expire (subst (Inv w now) s v.inv)

  ended-counts :
      (x : Ptr) → held x + num (e.after.handlers x).registered ≤ (e.after.handlers x).ref_count
  ended-counts x = elim (eq-cases x p) [
    | inl same ↦
        subst (λ y. held y + num (e.after.handlers y).registered ≤ (e.after.handlers y).ref_count)
          (sym same) (omega (arith, v.counts p, e.held, ap num (e.inv.away p out), ap num on))
    | inr ne ↦
        subst (λ (h : Handler ConnectHandler). held x + num h.registered ≤ h.ref_count)
          (sym (e.others x ne)) (v.counts x)
  ]

  ended-Keeps : Keeps destroy e.after now held
  ended-Keeps = record {
    order = xs ++ ys;
    inv = e.inv;
    counts = ended-counts;
    alive = λ x h. elim (eq-cases x p) [
      | inl same ↦ ((v.alive x h).0, ap (λ y. (e.after.handlers y).freed) same ∙ e.alive)
      | inr ne ↦ (
        (v.alive x h).0,
        ap (λ (k : Handler ConnectHandler). k.freed) (e.others x ne) ∙ (v.alive x h).1,
      )
    ];
    ends = λ x h off. ((e.after.handlers x).derived, refl);
  }

module _ (epoll_ctl : Ctl) (documented : IsDocumented epoll_ctl) (close : ℕ → Bool)
    (closes : (fd : ℕ) → close fd ≡ true) (getsockopt : ℕ → SockOpt) (tells : CanTell getsockopt)
    (pop_func : EventLoop ConnectHandler → Outcome (EventLoop ConnectHandler)) where
  on_event-Keeps :
      (w : EventLoop ConnectHandler) (now : ℕ) (held : Ptr → ℕ) (p : Ptr) (events : ℕ)
      → Keeps destroy w now held
      → 0 < held p
      → (w.handlers p).registered ≡ true
      → (u : EventLoop ConnectHandler) × (on_event epoll_ctl close getsockopt p events w ≡ ok u)
        × Keeps destroy u now held
  on_event-Keeps w now held p events v h on =
      let i : p ∈ v.order = ground (arith, v.inv.away p) in
      let (xs, ys, s) = mem-split p v.order i in
      elim (on_event-Ended epoll_ctl documented close closes getsockopt tells w p events xs ys
        (subst (Inv w now) s v.inv) (v.alive p h).0 (omega (arith, v.counts p, h, ap num on))) [
          | inl (b, e) ↦ (
            e.after,
            e.returns,
            ended-Keeps w p now (getsockopt (w.handlers p).fd).err xs ys held v s on e,
          )
          | inr (b, e) ↦ (w, e, v)
        ]

  -- Connection attempts are handlers as the event loop wants them, with functions from the pipe that
  -- keep the loop sound.
  pub connects-Steady :
      (now : ℕ)
      → ((w : EventLoop ConnectHandler) (held : Ptr → ℕ)
          → Keeps destroy w now held
          → (u : EventLoop ConnectHandler) × (pop_func w ≡ ok u) × Keeps destroy u now held)
      → IsSteady (callbacks epoll_ctl close getsockopt pop_func) now
  connects-Steady now function = record {
    event = λ w held p events v h on. on_event-Keeps w now held p events v h on;
    function = function;
  }
