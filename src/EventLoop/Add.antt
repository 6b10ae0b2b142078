-- ===== src/EventLoop/Add.antt =====
-- `EventLoop::Add` of src/event_loop.cc.
use hcproxy.Common.{
  ℕ, ◌+◌, ◌≤◌, ◌≡◌, ◌≢◌, refl, ap, true, false, List, [], ◌∷◌, ◌++◌, arith, Outcome, ok,
  length-append, ◌∈◌, ◌∉◌, snoc-cases, ne_of_not-mem, not-mem-snoc, inl, inr, subst, sym, ◌∙◌, pass,
  pass_not,
}
use hcproxy.NodeList.{Ptr, null, NodeList, update, update_self, add_tail}
use hcproxy.NodeList.Represents.{Holds}
use hcproxy.NodeList.AddTail.{add_tail-Holds}
use hcproxy.Epoll.{Ctl, CtlOp, EPoll, watched, IsDocumented, epoll_add}
use hcproxy.EventLoop.{Handler, EventLoop, set_handler, add}
use hcproxy.EventLoop.References.{deref-ok, inc_ref-ok}
use hcproxy.EventLoop.Invariant.{Inv, IsLive, Rising-frame, Rising-snoc}

-- What `Add` asks of the handler: alive, in no loop, on a socket that the kernel does not watch.
pub record CanAdd {X : Type 0} (w : EventLoop X) (p : Ptr) : Type 0 where
  pub is_set : p ≢ null
  pub alive : (w.handlers p).freed ≡ false
  pub unregistered : (w.handlers p).registered ≡ false
  pub unwatched : watched w.epoll.calls (w.handlers p).fd ≡ false

-- What `Add` comes to, for the handlers and the kernel.
pub record Added {X : Type 0} (w : EventLoop X) (p : Ptr) (now events : ℕ) (order : List Ptr)
    (r : Outcome (EventLoop X)) : Type 0 where
  pub after : EventLoop X
  pub returns : r ≡ ok after
  pub inv : Inv after now (order ++ p ∷ [])
  pub at : after.handlers p ≡ record (w.handlers p) {
    ref_count = (w.handlers p).ref_count + 1;
    registered = true;
    deadline = now + w.timeout;
  }
  pub others : (q : Ptr) → q ≢ p → after.handlers q ≡ w.handlers q
  pub calls :
      after.epoll.calls
      ≡ record { op = CtlOp.add; fd = (w.handlers p).fd; events = events; handler = p }
        ∷ w.epoll.calls

module _ {X : Type 0} (w : EventLoop X) (p : Ptr) (now : ℕ) (events : ℕ) where
  added_handler : Handler X
  added_handler = record (w.handlers p) {
    ref_count = (w.handlers p).ref_count + 1;
    registered = true;
    deadline = now + w.timeout;
  }

  added_epoll : EPoll
  added_epoll = record w.epoll {
    calls =
        record { op = CtlOp.add; fd = (w.handlers p).fd; events = events; handler = p }
        ∷ w.epoll.calls;
    total_events = w.epoll.total_events + 1;
  }

  added : NodeList → EventLoop X
  unfolding added_handler added_epoll
  added expire = record w {
    handlers =
        update
          (update w.handlers p (record (w.handlers p) { ref_count = (w.handlers p).ref_count + 1 }))
          p added_handler;
    expire = expire;
    epoll = added_epoll;
  }

  not-mem : {t : ℕ} {order : List Ptr} → Inv w t order → CanAdd w p → p ∉ order
  not-mem v c = ground (arith, v.live p)

  -- `p` is the new handler, and every other is as before
  added_self : (e : NodeList) → (added e).handlers p ≡ added_handler
  unfolding added
  added_self e = ground arith

  added_other : (e : NodeList) (q : Ptr) → q ≢ p → (added e).handlers q ≡ w.handlers q
  unfolding added
  added_other e q ne = ground arith

  module _ {t : ℕ} {order : List Ptr} (e : NodeList) (v : Inv w t order) (c : CanAdd w p) where
    IsLive-self : IsLive (added e) p
    unfolding added
    IsLive-self = ground arith

    IsLive-other : (q : Ptr) → q ∈ order → q ≢ p → IsLive (added e) q
    unfolding added
    IsLive-other q i ne =
        let l = v.live q i in
        record {
          registered = rw (added_other e q ne) l.registered;
          alive = rw (added_other e q ne) l.alive;
          referred = rw (added_other e q ne) l.referred;
          watches = rw (added_other e q ne) (ground (arith, l.watches));
        }

    added-IsLive : p ∉ order → (q : Ptr) → q ∈ order ++ p ∷ [] → IsLive (added e) q
    added-IsLive out q i = elim (snoc-cases q p order i) [
      | inl s ↦ subst (IsLive (added e)) (sym s) IsLive-self
      | inr j ↦ IsLive-other q j (ne_of_not-mem q p order j out)
    ]

    fd_of : (q : Ptr) → ((added e).handlers q).fd ≡ (w.handlers q).fd
    unfolding added
    fd_of q = ground arith

    fresh_fd : (q : Ptr) → q ∈ order → (w.handlers q).fd ≢ (w.handlers p).fd
    fresh_fd q i s = ground (arith, (v.live q i).watches, c.unwatched, s)

    added_own :
        p ∉ order
        → (q r : Ptr) → q ∈ order ++ p ∷ []
        → r ∈ order ++ p ∷ []
        → (w.handlers q).fd ≡ (w.handlers r).fd
        → q ≡ r
    added_own out q r i j s = elim (snoc-cases q p order i) [
      | inl a ↦ elim (snoc-cases r p order j) [
        | inl b ↦ a ∙ sym b
        | inr b ↦ absurd (fresh_fd r b (sym (rw a at s)))
      ]
      | inr a ↦ elim (snoc-cases r p order j) [
        | inl b ↦ absurd (fresh_fd q a (rw b at s))
        | inr b ↦ v.own_fd q r a b s
      ]
    ]

    added_recent :
        t ≤ now
        → (q : Ptr) → q ∈ order ++ p ∷ []
        → ((added e).handlers q).deadline ≤ now + w.timeout
    unfolding added
    added_recent le q i = elim (snoc-cases q p order i) [
      | inl s ↦ ground arith
      | inr j ↦ ground (arith, v.recent q)
    ]

    added-Inv :
        t ≤ now → Holds e (order ++ p ∷ []) → p ∉ order → Inv (added e) now (order ++ p ∷ [])
    unfolding added
    added-Inv le h out = record {
      on_thread = v.on_thread;
      ordered = h;
      rising =
          Rising-snoc (added e).handlers 0 order p
            (Rising-frame w.handlers (added e).handlers 0 order (λ q i. ground arith) v.rising)
            (omega arith) (λ q i. ground (arith, v.recent q));
      recent = added_recent le;
      counted = omega (arith, v.counted, length-append order (p ∷ []));
      live = added-IsLive out;
      away = λ q i. let (ne, o) = not-mem-snoc q p order i in rw (added_other e q ne) (v.away q o);
      own_fd = λ q r i j s. added_own out q r i j (sym (fd_of q) ∙ s ∙ fd_of r);
    }

  module _ (epoll_ctl : Ctl) (documented : IsDocumented epoll_ctl) where
    epoll_add-ok :
        watched w.epoll.calls (w.handlers p).fd ≡ false
        → epoll_add epoll_ctl (w.handlers p).fd events p w.epoll ≡ ok added_epoll
    unfolding epoll_add added_epoll
    epoll_add-ok h = ground (
      arith,
      documented.succeeds w.epoll.calls
          (record { op = CtlOp.add; fd = (w.handlers p).fd; events = events; handler = p }),
    )

    add-added :
        {t : ℕ} {order : List Ptr} (e : NodeList)
        → Inv w t order
        → CanAdd w p
        → add_tail p w.expire ≡ ok e
        → add epoll_ctl now p events w ≡ ok (added e)
    unfolding add added
    add-added e v c eq = rw (
      deref-ok p w c.is_set c.alive,
      pass_not c.unregistered,
      pass v.on_thread,
      inc_ref-ok p w c.is_set c.alive,
      deref-ok p w1 c.is_set (ground arith),
      eq,
      update_self w.handlers p,
      epoll_add-ok c.unwatched,
    )
      where
        w1 : EventLoop X
        w1 = set_handler p (record (w.handlers p) { ref_count = (w.handlers p).ref_count + 1 }) w

    pub add-Added :
        {t : ℕ} {order : List Ptr}
        → t ≤ now
        → Inv w t order
        → CanAdd w p
        → Added w p now events order (add epoll_ctl now p events w)
    unfolding added added_handler added_epoll
    add-Added le v c =
        let (e, done, holds) = add_tail-Holds p w.expire _ v.ordered c.is_set (not-mem v c) in
        record {
          after = added e;
          returns = add-added e v c done;
          inv = added-Inv e v c le holds (not-mem v c);
          at = added_self e;
          others = added_other e;
          calls = refl;
        }

    -- `Add` of a live handler that is in no loop, on a socket that the kernel does not watch, runs
    -- through all its checks: the handler is now the last to expire, at `now + timeout_`, with one
    -- reference more, and the invariant holds.
    pub add-Inv :
        {t : ℕ} {order : List Ptr}
        → t ≤ now
        → Inv w t order
        → CanAdd w p
        → (u : EventLoop X) × (add epoll_ctl now p events w ≡ ok u)
          × Inv u now (order ++ p ∷ [])
          × ((u.handlers p).deadline ≡ now + w.timeout)
          × ((u.handlers p).ref_count ≡ (w.handlers p).ref_count + 1)
    add-Inv le v c =
        let a = add-Added le v c in
        (
          a.after,
          a.returns,
          a.inv,
          ap (λ (h : Handler X). h.deadline) a.at,
          ap (λ (h : Handler X). h.ref_count) a.at,
        )
