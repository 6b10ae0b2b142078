-- ===== src/EventLoop/Cycle/Delivery.antt =====
-- The handlers that have an event in a round of `EventLoop::Loop` of src/event_loop.cc, and the
-- references that the round holds of them.
use hcproxy.Common.{ℕ, ◌<◌, ◌≡◌, ◌≢◌, true, List, [], ◌∷◌, ok}
use hcproxy.NodeList.{Ptr, null}
use hcproxy.EventLoop.{EventLoop}
use hcproxy.EventLoop.Cycle.{Callbacks}
use hcproxy.EventLoop.Cycle.Events.{Keeps}

module _ {X : Type 0} (c : Callbacks X) where
  -- What the loop relies on: whoever holds which references, `OnEvent` of a registered handler that is
  -- held, and a function from the pipe, run to their end and release no reference but their own.
  pub record IsSteady (now : ℕ) : Type 0 where
    pub event :
        (w : EventLoop X) (held : Ptr → ℕ) (p : Ptr) (events : ℕ)
        → Keeps c.destroy w now held
        → 0 < held p
        → (w.handlers p).registered ≡ true
        → (u : EventLoop X) × (c.on_event p events w ≡ ok u) × Keeps c.destroy u now held
    pub function :
        (w : EventLoop X) (held : Ptr → ℕ)
        → Keeps c.destroy w now held
        → (u : EventLoop X) × (c.pop_func w ≡ ok u) × Keeps c.destroy u now held

  -- The events are those of registered handlers, or of the pipe.
  abbrev pub AreRegistered : EventLoop X → List (Ptr × ℕ) → Type 0
  AreRegistered w [] = Unit {0}
  AreRegistered w ((p, events) ∷ rest) =
      (p ≢ null → (w.handlers p).registered ≡ true) × AreRegistered w rest
