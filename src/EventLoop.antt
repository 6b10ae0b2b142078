-- ===== src/EventLoop.antt =====
-- `class EventHandler` and `class EventLoop` of src/event_loop.h and src/event_loop.cc.
-- A handler is named by its address, and all handlers stand in one store; `derived` is what its
-- subclass adds, and `destroy` is the subclass's destructor. Using a handler after `delete` is
-- undefined in the source; here it ends in `fatal`, like a failed check.
pub mod Invariant
pub mod References
pub mod Add
pub mod Remove
pub mod Refresh
pub mod Cycle
pub mod Functions
pub mod Create
use hcproxy.Common.{
  ℕ, ◌+◌, ◌-◌, ◌≡◌, ◌≢◌, arith, Bool, true, false, not, Outcome, ok, ◌>>=◌, ◌>>◌, check, ltb, leb,
  ◌==◌, if◌then◌else◌,
}
use hcproxy.NodeList.{Ptr, null, NodeList, is_set, update, add_tail, erase}
use hcproxy.Epoll.{Ctl, EPoll, epoll_add, epoll_remove, epoll_modify}

-- `class EventHandler`: `event_loop_ != nullptr` is `registered`
pub record Handler (X : Type 0) : Type 0 where
  pub fd : ℕ
  pub deadline : ℕ
  pub registered : Bool
  pub ref_count : ℕ
  pub freed : Bool
  pub derived : X

-- `class EventLoop`; `on_thread` says whether the calling thread is that of `Loop()`
pub record EventLoop (X : Type 0) : Type 0 where
  pub handlers : Ptr → Handler X
  pub epoll : EPoll
  pub expire : NodeList
  pub timeout : ℕ
  pub on_thread : Bool

module _ {X : Type 0} where
  abbrev pub set_handler : Ptr → Handler X → EventLoop X → EventLoop X
  set_handler p h w = record w { handlers = update w.handlers p h }

  -- `CHECK(eh)` where there is one, and the use of `*eh`
  unfoldable pub deref : Ptr → EventLoop X → Outcome (Handler X)
  deref p w = do check (is_set p); check (not (w.handlers p).freed); ok (w.handlers p)

  unfoldable pub inc_ref : Ptr → EventLoop X → Outcome (EventLoop X)
  inc_ref p w = do h ← deref p w; ok (set_handler p (record h { ref_count = h.ref_count + 1 }) w)

  module _ (destroy : X → Outcome X) where
    -- `delete this`: the subclass's destructor, then that of `EventHandler`
    unfoldable pub delete : Ptr → Handler X → EventLoop X → Outcome (EventLoop X)
    delete p h w = do
      x ← destroy h.derived
      check (not h.registered)
      check (h.ref_count == 0)
      ok (set_handler p (record h { freed = true; derived = x }) w)

    unfoldable pub dec_ref : Ptr → EventLoop X → Outcome (EventLoop X)
    unfolding delete
    dec_ref p w = do
      h ← deref p w
      check (ltb 0 h.ref_count)
      let h = record h { ref_count = h.ref_count - 1 }
      if h.ref_count == 0 then delete p h w else ok (set_handler p h w)

  module _ (epoll_ctl : Ctl) where
    -- `EventLoop::Add` at the time `now`
    unfoldable pub add : (now : ℕ) → Ptr → (events : ℕ) → EventLoop X → Outcome (EventLoop X)
    add now p events w = do
      h ← deref p w
      check (not h.registered)
      check w.on_thread
      w ← inc_ref p w
      h ← deref p w
      let w = set_handler p (record h { registered = true; deadline = now + w.timeout }) w
      expire ← add_tail p w.expire
      epoll ← epoll_add epoll_ctl h.fd events p w.epoll
      ok (record w { expire = expire; epoll = epoll })

    -- `EventLoop::Remove`
    unfoldable pub remove : (X → Outcome X) → Ptr → EventLoop X → Outcome (EventLoop X)
    remove destroy p w = do
      h ← deref p w
      check h.registered
      check w.on_thread
      expire ← erase p w.expire
      epoll ← epoll_remove epoll_ctl h.fd w.epoll
      let w = record w { expire = expire; epoll = epoll }
      dec_ref destroy p (set_handler p (record h { registered = false }) w)

    -- `EventLoop::Modify`
    unfoldable pub modify : Ptr → (events : ℕ) → EventLoop X → Outcome (EventLoop X)
    modify p events w = do
      h ← deref p w
      check h.registered
      check w.on_thread
      epoll ← epoll_modify epoll_ctl h.fd events p w.epoll
      ok (record w { epoll = epoll })

  -- `CHECK(eh->deadline_ >= tail->deadline_)` where there is a tail
  unfoldable pub check_tail : Ptr → ℕ → EventLoop X → Outcome (Unit {0})
  check_tail tail deadline w =
      if is_set tail then (do t ← deref tail w; check (leb t.deadline deadline)) else ok tt

  -- `EventLoop::Refresh`
  unfoldable pub refresh : (now : ℕ) → Ptr → EventLoop X → Outcome (EventLoop X)
  refresh now p w = do
    h ← deref p w
    check h.registered
    check w.on_thread
    let w = set_handler p (record h { deadline = now + w.timeout }) w
    check_tail w.expire.tail (now + w.timeout) w
    expire ← erase p w.expire
    expire ← add_tail p expire
    ok (record w { expire = expire })
