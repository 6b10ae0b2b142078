-- ===== src/EventLoop/Cycle/Expiry.antt =====
-- The sweep over the deadlines in `EventLoop::Loop` of src/event_loop.cc.
use hcproxy.Common.{
  ℕ, zero, suc, ◌+◌, ◌≤◌, ◌<◌, ◌≡◌, ◌≢◌, refl, true, false, List, [], ◌∷◌, arith, ok, length, inl,
  inr, ◌∈◌, ◌∉◌, ◌∙◌, sym, pass, eq-cases, ==_refl, ◌-◌, lt-cases, lt→ltb, not-ltb, mem_middle,
  subst,
}
use hcproxy.NodeList.{Ptr, null, is_set}
use hcproxy.EventLoop.{EventLoop, deref, dec_ref, set_handler}
use hcproxy.EventLoop.References.{deref-ok, inc_ref-ok, dec_ref-keep, dec_ref-last}
use hcproxy.EventLoop.Invariant.{Inv, Rising, Inv-set_live, Inv-set_away}
use hcproxy.EventLoop.Cycle.{Callbacks, expire_one, expire_due}

-- What `OnTimeout` of every handler in this program does: with a reference held by the caller, it
-- takes the handler out of the loop, and perhaps others with it.
pub record Retires {X : Type 0} (c : Callbacks X) (w : EventLoop X) (t : ℕ) (p : Ptr)
    (ys : List Ptr) : Type 0 where
  pub after : EventLoop X
  pub order : List Ptr
  pub returns : c.on_timeout p w ≡ ok after
  pub inv : Inv after t order
  pub fewer : length order ≤ length ys
  pub out : p ∉ order
  pub alive : (after.handlers p).freed ≡ false
  pub held : 0 < (after.handlers p).ref_count
  pub left : X
  pub destroys : c.destroy (after.handlers p).derived ≡ ok left

-- Nothing in the list is due at the time `now`.
abbrev pub NoneDue : {X : Type 0} → EventLoop X → ℕ → List Ptr → Type 0
NoneDue w now order = (p : Ptr) → p ∈ order → now < (w.handlers p).deadline

NoneDue-of_first :
    {X : Type 0} (w : EventLoop X) (now b : ℕ) (order : List Ptr)
    → Rising w.handlers b order
    → now < b
    → NoneDue w now order
NoneDue-of_first w now b [] r h q i = cc
NoneDue-of_first w now b (x ∷ xs) r h q i =
    ground (arith, NoneDue-of_first w now (w.handlers x).deadline xs r.1 (omega arith) q)

module _ {X : Type 0} (c : Callbacks X) (clock : ℕ → ℕ) where
  module _ (w : EventLoop X) (p : Ptr) where
    held : EventLoop X
    held = set_handler p (record (w.handlers p) { ref_count = (w.handlers p).ref_count + 1 }) w

    held-Inv : {t : ℕ} {order : List Ptr} → Inv w t order → Inv held t order
    unfolding held
    held-Inv v = Inv-set_live w p _ v refl refl refl refl (omega arith)

    held_twice : 0 < (w.handlers p).ref_count → 1 < (held.handlers p).ref_count
    unfolding held
    held_twice h = ground arith

    dec_ref-retired :
        (u : EventLoop X) {t : ℕ} {order : List Ptr} (x : X)
        → Inv u t order
        → p ≢ null
        → p ∉ order
        → (u.handlers p).freed ≡ false
        → 0 < (u.handlers p).ref_count
        → c.destroy (u.handlers p).derived ≡ ok x
        → (s : EventLoop X) × (dec_ref c.destroy p u ≡ ok s) × Inv s t order
    dec_ref-retired u x v h out f r d = elim (eq-cases (u.handlers p).ref_count 1) [
      | inl e ↦ (
        set_handler p (record (u.handlers p) { ref_count = 0; freed = true; derived = x }) u,
        dec_ref-last c.destroy p u x h f e (v.away p out) d,
        Inv-set_away u p _ v out (v.away p out),
      )
      | inr ne ↦ (
        set_handler p (record (u.handlers p) { ref_count = (u.handlers p).ref_count - 1 }) u,
        dec_ref-keep c.destroy p u h f (omega arith),
        Inv-set_away u p _ v out (v.away p out),
      )
    ]

    expire_one-Retires :
        {t : ℕ} (i : ℕ) (ys : List Ptr)
        → Inv w t (p ∷ ys)
        → (r : Retires c held t p ys)
        → (u : EventLoop X) × (expire_one c clock i p w ≡ ok u) × Inv u t r.order
    unfolding expire_one held
    expire_one-Retires i ys v r =
        let l = v.live p (rw (==_refl p)) in
        let h = v.ordered.linked.0 in
        let (u, done, inv) =
          dec_ref-retired r.after r.left r.inv h r.out r.alive r.held r.destroys in
        (
          u,
          rw
              (
                deref-ok p w h l.alive,
                pass l.registered,
                inc_ref-ok p w h l.alive,
                r.returns,
                deref-ok p r.after h r.alive,
                r.inv.away p r.out,
              )
              done,
          inv,
        )

  module _ (fuel i : ℕ) (w : EventLoop X) (p : Ptr) (head : w.expire.head ≡ p) (h : p ≢ null)
      (alive : (w.handlers p).freed ≡ false) where
    head_set : is_set w.expire.head ≡ true
    head_set = ground arith

    deref-head : deref w.expire.head w ≡ ok (w.handlers p)
    deref-head = subst (λ q. deref q w ≡ ok (w.handlers p)) (sym head) (deref-ok p w h alive)

    due_stop : clock i < (w.handlers p).deadline → expire_due c clock (suc fuel) i w ≡ ok w
    unfolding expire_due
    due_stop later = rw (head_set, deref-head, lt→ltb _ _ later)

    due_step :
        (w.handlers p).deadline ≤ clock i
        → (u : EventLoop X) → expire_one c clock i p w ≡ ok u
        → expire_due c clock (suc fuel) i w ≡ expire_due c clock fuel (i + 2) u
    unfolding expire_due
    due_step due u one = rw (
      head_set,
      deref-head,
      not-ltb _ _ due,
      subst (λ q. expire_one c clock i q w ≡ ok u) (sym head) one,
    )

  -- The course of a sweep from the reading `i` of the clock in the loop `w` to the reading `j` in the
  -- loop `v`. It ends when the list is empty or its first handler is not due at the reading just
  -- taken; and only a first handler that is due at the reading just taken is timed out.
  pub data Sweep : ℕ → EventLoop X → ℕ → EventLoop X → Type 0 where
    none_left : {i : ℕ} {w : EventLoop X} → w.expire.head ≡ null → Sweep i w i w
    not_yet :
        {i : ℕ} {w : EventLoop X}
        → w.expire.head ≢ null
        → clock i < (w.handlers w.expire.head).deadline
        → Sweep i w i w
    timed_out :
        {i j : ℕ} {w u v : EventLoop X}
        → w.expire.head ≢ null
        → (w.handlers w.expire.head).deadline ≤ clock i
        → expire_one c clock i w.expire.head w ≡ ok u
        → Sweep (i + 2) u j v
        → Sweep i w j v

  Sweep-early :
      (i : ℕ) (w : EventLoop X) (p : Ptr)
      → w.expire.head ≡ p
      → p ≢ null
      → clock i < (w.handlers p).deadline
      → Sweep i w i w
  Sweep-early i w p head h later =
      not_yet (subst (λ q. q ≢ null) (sym head) h)
        (subst (λ q. clock i < (w.handlers q).deadline) (sym head) later)

  Sweep-due :
      {i j : ℕ} {u v : EventLoop X} (w : EventLoop X) (p : Ptr)
      → w.expire.head ≡ p
      → p ≢ null
      → (w.handlers p).deadline ≤ clock i
      → expire_one c clock i p w ≡ ok u
      → Sweep (i + 2) u j v
      → Sweep i w j v
  Sweep-due {i} {j} {u} w p head h due one more =
      timed_out (subst (λ q. q ≢ null) (sym head) h)
        (subst (λ q. (w.handlers q).deadline ≤ clock i) (sym head) due)
        (subst (λ q. expire_one c clock i q w ≡ ok u) (sym head) one) more

  -- What a sweep of the timeouts comes to, from the order that it starts with.
  pub record Swept (w : EventLoop X) (t : ℕ) (order : List Ptr) (fuel i : ℕ) : Type 0 where
    pub after : EventLoop X
    pub rest : List Ptr
    pub reading : ℕ
    pub returns : expire_due c clock fuel i w ≡ ok after
    pub sweep : Sweep i w reading after
    pub inv : Inv after t rest
    pub fewer : length rest ≤ length order
    pub none_due : NoneDue after (clock reading) rest

  -- Given handlers that leave the loop when they time out, the sweep ends within as many rounds as
  -- there are handlers and fails no check. It times out the first handler if that is due at the
  -- reading of the clock just taken, and goes on with a new reading; else it ends, and then no
  -- handler that is left is due at that last reading.
  pub expire_due-Swept :
      {t : ℕ}
      → ((w : EventLoop X) (p : Ptr) (ys : List Ptr)
          → Inv w t (p ∷ ys)
          → 1 < (w.handlers p).ref_count
          → Retires c w t p ys)
      → (fuel i : ℕ) (w : EventLoop X) (order : List Ptr) → Inv w t order
      → length order < fuel
      → Swept w t order fuel i
  unfolding expire_due
  expire_due-Swept retires zero i w order v h = absurd (omega arith)
  expire_due-Swept retires (suc fuel) i w [] v h = record {
    after = w;
    rest = [];
    reading = i;
    returns = rw v.ordered.head_first;
    sweep = none_left v.ordered.head_first;
    inv = v;
    fewer = omega arith;
    none_due = λ p i. cc;
  }
  expire_due-Swept retires (suc fuel) i w (p ∷ ys) v h =
      let l = v.live p (mem_middle p [] ys) in
      let set = v.ordered.linked.0 in
      elim (lt-cases (clock i) (w.handlers p).deadline) [
        | inl later ↦ record {
          after = w;
          rest = p ∷ ys;
          reading = i;
          returns = due_stop fuel i w p v.ordered.head_first set l.alive later;
          sweep = Sweep-early i w p v.ordered.head_first set later;
          inv = v;
          fewer = omega arith;
          none_due =
              NoneDue-of_first w (clock i) (w.handlers p).deadline (p ∷ ys)
                (omega arith, v.rising.1) later;
        }
        | inr due ↦
            let r = retires (held w p) p ys (held-Inv w p v) (held_twice w p l.referred) in
            let (u, one, inv) = expire_one-Retires w p i ys v r in
            let s = expire_due-Swept retires fuel (i + 2) u r.order inv (omega (arith, r.fewer)) in
            record {
              after = s.after;
              rest = s.rest;
              reading = s.reading;
              returns = due_step fuel i w p v.ordered.head_first set l.alive due u one ∙ s.returns;
              sweep = Sweep-due w p v.ordered.head_first set due one s.sweep;
              inv = s.inv;
              fewer = omega (arith, s.fewer, r.fewer);
              none_due = s.none_due;
            }
      ]
