-- ===== src/EventLoop/Invariant.antt =====
-- The invariant of src/event_loop.cc between two operations, and what it is to change one handler.
use hcproxy.Common.{
  ℕ, suc, ◌+◌, ◌≤◌, ◌<◌, ◌≡◌, true, false, List, [], ◌∷◌, ◌++◌, arith, length, ◌∈◌, ◌∉◌,
}
use hcproxy.NodeList.{Ptr}
use hcproxy.NodeList.Represents.{Holds}
use hcproxy.Epoll.{watched}
use hcproxy.EventLoop.{Handler, EventLoop, set_handler}

module _ {X : Type 0} where
  -- The deadlines rise along the list, from `b` on.
  abbrev pub Rising : (Ptr → Handler X) → ℕ → List Ptr → Type 0
  Rising f b [] = Unit {0}
  Rising f b (x ∷ xs) = (b ≤ (f x).deadline) × Rising f (f x).deadline xs

  -- A handler in the list is registered, alive and referred to, and the kernel watches its socket.
  pub record IsLive (w : EventLoop X) (p : Ptr) : Type 0 where
    pub registered : (w.handlers p).registered ≡ true
    pub alive : (w.handlers p).freed ≡ false
    pub referred : 0 < (w.handlers p).ref_count
    pub watches : watched w.epoll.calls (w.handlers p).fd ≡ true

  -- `expire_` holds exactly the registered handlers, in the order of their deadlines. The one event
  -- more is that of the pipe.
  pub record Inv (w : EventLoop X) (now : ℕ) (order : List Ptr) : Type 0 where
    pub on_thread : w.on_thread ≡ true
    pub ordered : Holds w.expire order
    pub rising : Rising w.handlers 0 order
    pub recent : (p : Ptr) → p ∈ order → (w.handlers p).deadline ≤ now + w.timeout
    pub counted : w.epoll.total_events ≡ suc (length order)
    pub live : (p : Ptr) → p ∈ order → IsLive w p
    pub away : (p : Ptr) → p ∉ order → (w.handlers p).registered ≡ false
    pub own_fd : (p q : Ptr) → p ∈ order → q ∈ order → (w.handlers p).fd ≡ (w.handlers q).fd → p ≡ q

  pub Rising-frame :
      (f g : Ptr → Handler X) (b : ℕ) (xs : List Ptr)
      → ((p : Ptr) → p ∈ xs → (g p).deadline ≡ (f p).deadline)
      → Rising f b xs
      → Rising g b xs
  Rising-frame f g b [] same r = tt
  Rising-frame f g b (x ∷ xs) same r =
      ground (arith, same x, Rising-frame f g (f x).deadline xs (λ p i. same p (ground arith)) r.1)

  pub Rising-weaken :
      (f : Ptr → Handler X) (b c : ℕ) (xs : List Ptr) → b ≤ c → Rising f c xs → Rising f b xs
  Rising-weaken f b c [] h r = tt
  Rising-weaken f b c (x ∷ xs) h r = (omega arith, r.1)

  pub Rising-without :
      (f : Ptr → Handler X) (b : ℕ) (xs : List Ptr) (n : Ptr) (ys : List Ptr)
      → Rising f b (xs ++ n ∷ ys)
      → Rising f b (xs ++ ys)
  Rising-without f b [] n ys r = Rising-weaken f b (f n).deadline ys r.0 r.1
  Rising-without f b (x ∷ xs) n ys r = (r.0, Rising-without f (f x).deadline xs n ys r.1)

  pub Rising-snoc :
      (f : Ptr → Handler X) (b : ℕ) (xs : List Ptr) (n : Ptr)
      → Rising f b xs
      → b ≤ (f n).deadline
      → ((p : Ptr) → p ∈ xs → (f p).deadline ≤ (f n).deadline)
      → Rising f b (xs ++ n ∷ [])
  Rising-snoc f b [] n r h m = (h, tt)
  Rising-snoc f b (x ∷ xs) n r h m =
      (r.0, Rising-snoc f (f x).deadline xs n r.1 (m x (ground arith)) (λ p i. m p (ground arith)))

  -- What holds at a reading of the clock holds later.
  pub Inv-later :
      {w : EventLoop X} {t now : ℕ} {order : List Ptr} → t ≤ now → Inv w t order → Inv w now order
  Inv-later h v = record {
    on_thread = v.on_thread;
    ordered = v.ordered;
    rising = v.rising;
    recent = λ p i. omega (arith, v.recent p i);
    counted = v.counted;
    live = v.live;
    away = v.away;
    own_fd = v.own_fd;
  }

  -- A change to a handler that is not registered, before and after.
  pub Inv-set_away :
      (w : EventLoop X) {now : ℕ} {order : List Ptr} (p : Ptr) (h : Handler X)
      → Inv w now order
      → p ∉ order
      → h.registered ≡ false
      → Inv (set_handler p h w) now order
  Inv-set_away w {now} {order} p h v out off = record {
    on_thread = v.on_thread;
    ordered = v.ordered;
    rising =
        Rising-frame w.handlers (set_handler p h w).handlers 0 order (λ q i. ground arith) v.rising;
    recent = λ q i. ground (arith, v.recent q);
    counted = v.counted;
    live = λ q i. ground (arith, v.live q);
    away = λ q i. ground (arith, v.away q);
    own_fd = λ q r i j e. ground (arith, v.own_fd q r);
  }

  -- A change to a handler that leaves it registered, alive and referred to, on the same socket.
  pub Inv-set_live :
      (w : EventLoop X) {now : ℕ} {order : List Ptr} (p : Ptr) (h : Handler X)
      → Inv w now order
      → h.fd ≡ (w.handlers p).fd
      → h.deadline ≡ (w.handlers p).deadline
      → h.registered ≡ (w.handlers p).registered
      → h.freed ≡ (w.handlers p).freed
      → 0 < h.ref_count
      → Inv (set_handler p h w) now order
  Inv-set_live w {now} {order} p h v a b c d e = record {
    on_thread = v.on_thread;
    ordered = v.ordered;
    rising =
        Rising-frame w.handlers (set_handler p h w).handlers 0 order (λ q i. ground arith) v.rising;
    recent = λ q i. ground (arith, v.recent q);
    counted = v.counted;
    live = λ q i. ground (arith, v.live q);
    away = λ q i. ground (arith, v.away q);
    own_fd = λ q r i j e. ground (arith, v.own_fd q r);
  }
