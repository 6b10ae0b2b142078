-- ===== src/Forwarder/Link/Life.antt =====
-- The life of a tunnel of src/forwarder.cc under the rounds of src/event_loop.cc.
use hcproxy.Common.{ℕ, ◌≤◌, ◌≡◌, ap, ◌∙◌, true, List, Outcome, ok, ◌>>=◌, ◌∉◌, if◌then◌else◌}
use hcproxy.NodeList.{Ptr}
use hcproxy.EventLoop.{Handler, EventLoop, deref, inc_ref, dec_ref}
use hcproxy.EventLoop.Invariant.{Inv}
use hcproxy.Forwarder.Link.{Link, Net, is_open, destroy, link_on_event}
use hcproxy.Forwarder.Link.Sides.{Tunnel, swap}
use hcproxy.Forwarder.Link.Hold.{with_ref, with_ref-at}
use hcproxy.Forwarder.Link.Flow.{Calls, IsFinite, Pipe}

-- A tunnel between two rounds, to which only the loop and its links refer; or both links are deleted.
pub data Life (w : EventLoop Link) (now : ℕ) (order : List Ptr) (p q : Ptr) : Type 0 where
  live :
      Tunnel w now order p q 0 0
      → Pipe (w.handlers p).derived (w.handlers q).derived
      → Pipe (w.handlers q).derived (w.handlers p).derived
      → Life w now order p q
  over :
      Inv w now order
      → p ∉ order
      → q ∉ order
      → (w.handlers p).freed ≡ true
      → (w.handlers q).freed ≡ true
      → Life w now order p q

-- A round of the loop with one event, of the handler `p`.
unfoldable pub round_event :
    {W : Type 0}
    → Calls W
    → (fuel : ℕ) → (clock : ℕ → ℕ) → Ptr
    → (events : ℕ) → Net W
    → Outcome (EventLoop Link × W)
round_event c fuel clock p events n = do
  w ← inc_ref p n.loop
  h ← deref p w
  m ←
      (if h.registered
        then link_on_event c.epoll_ctl c.close c.shutdown c.kernel c.getsockopt c.left_first fuel
            clock p events (record { loop = w; kernel = n.kernel })
        else ok (record { loop = w; kernel = n.kernel }))
  w ← dec_ref (destroy c.kernel) p m.loop
  ok (w, m.kernel)

module _ {W : Type 0} (c : Calls W) (supply : W → ℕ) (finite : IsFinite c.kernel supply) (fuel : ℕ)
    (clock : ℕ → ℕ) (p q : Ptr) (events t : ℕ) (first : t ≤ clock 0) (second : clock 0 ≤ clock 1)
    (n : Net W) (order : List Ptr) where
  module _ (tunnel : Tunnel n.loop t order p q 0 0)
      (there : Pipe (n.loop.handlers p).derived (n.loop.handlers q).derived)
      (back : Pipe (n.loop.handlers q).derived (n.loop.handlers p).derived) where
    held : Net W
    held = record { loop = with_ref p n.loop; kernel = n.kernel }

    registered :
        is_open (n.loop.handlers p).derived ≡ true → (held.loop.handlers p).registered ≡ true
    unfolding held
    registered is_open_p =
        ap (λ (h : Handler Link). h.registered) (with_ref-at n.loop t order q p 0 0 (swap tunnel))
        ∙ (tunnel.inv.live p (tunnel.left.listed ∙ is_open_p)).registered
