-- ===== src/EventLoop/Cycle.antt =====
-- One round of `EventLoop::Loop` of src/event_loop.cc, after `epoll_.Wait` has returned. What the
-- subclasses do on an event or a timeout, and the function that a pipe event runs, are parameters.
pub mod Expiry
pub mod Events
pub mod Delivery
pub mod Removal
use hcproxy.Common.{
  ℕ, zero, suc, ◌+◌, List, [], ◌∷◌, Outcome, ok, stuck, ◌>>=◌, ◌>>◌, check, ltb, if◌then◌else◌,
}
use hcproxy.NodeList.{Ptr, is_set}
use hcproxy.EventLoop.{EventLoop, deref, inc_ref, dec_ref, refresh}

pub record Callbacks (X : Type 0) : Type 0 where
  pub on_event : Ptr → ℕ → EventLoop X → Outcome (EventLoop X)
  pub on_timeout : Ptr → EventLoop X → Outcome (EventLoop X)
  pub pop_func : EventLoop X → Outcome (EventLoop X)
  pub destroy : X → Outcome X

module _ {X : Type 0} (c : Callbacks X) where
  -- `for (ev : epoll_) if (ptr) ptr->IncRef()`; a null pointer stands for the pipe
  unfoldable pub hold_events : List (Ptr × ℕ) → EventLoop X → Outcome (EventLoop X)
  hold_events [] w = ok w
  hold_events ((p, events) ∷ rest) w = do
    w ← (if is_set p then inc_ref p w else ok w)
    hold_events rest w

  unfoldable pub handle_event : Ptr → ℕ → EventLoop X → Outcome (EventLoop X)
  handle_event p events w =
      if is_set p
      then (do
        h ← deref p w
        w ← (if h.registered then c.on_event p events w else ok w)
        dec_ref c.destroy p w)
      else c.pop_func w

  unfoldable pub handle_events : List (Ptr × ℕ) → EventLoop X → Outcome (EventLoop X)
  unfolding handle_event
  handle_events [] w = ok w
  handle_events ((p, events) ∷ rest) w = do w ← handle_event p events w; handle_events rest w

  module _ (clock : ℕ → ℕ) where
    -- one handler that is due; `clock i` is the `i`-th reading of `Clock::now()`
    unfoldable pub expire_one : ℕ → Ptr → EventLoop X → Outcome (EventLoop X)
    expire_one i p w = do
      h ← deref p w
      check h.registered
      w ← inc_ref p w
      w ← c.on_timeout p w
      h ← deref p w
      w ← (if h.registered then refresh (clock (i + 1)) p w else ok w)
      dec_ref c.destroy p w

    -- the inner `while (true)` on fuel
    pub expire_due : ℕ → ℕ → EventLoop X → Outcome (EventLoop X)
    expire_due zero i w = stuck
    expire_due (suc fuel) i w =
        if is_set w.expire.head
        then (do
          h ← deref w.expire.head w
          if ltb (clock i) h.deadline
              then ok w
              else (expire_one i w.expire.head w >>= expire_due fuel (i + 2)))
        else ok w

    -- the body of the outer loop
    unfoldable pub round : ℕ → ℕ → List (Ptr × ℕ) → EventLoop X → Outcome (EventLoop X)
    unfolding hold_events handle_events expire_due
    round fuel i events w = do
      w ← hold_events events w
      w ← handle_events events w
      expire_due fuel i w
