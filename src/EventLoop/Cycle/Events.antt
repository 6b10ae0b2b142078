-- ===== src/EventLoop/Cycle/Events.antt =====
-- The two loops over the events of a round in `EventLoop::Loop` of src/event_loop.cc: the first holds
-- every handler, the second handles the events.
use hcproxy.Common.{
  ℕ, ◌+◌, ◌-◌, ◌≤◌, ◌<◌, ◌≡◌, ◌≢◌, refl, ap, sym, ◌∙◌, Bool, true, false, List, [], ◌∷◌, arith,
  Outcome, ok, ◌∈◌, ◌∉◌, ◌⊎◌, inl, inr, eq-cases, ==_refl, ◌==◌, ◌&&◌,
}
use hcproxy.NodeList.{Ptr, null, is_set}
use hcproxy.EventLoop.{Handler, EventLoop, set_handler, inc_ref, dec_ref}
use hcproxy.EventLoop.References.{inc_ref-ok, dec_ref-keep, dec_ref-last}
use hcproxy.EventLoop.Invariant.{Inv, Inv-set_live, Inv-set_away}

abbrev pub num : Bool → ℕ
num true = 1
num false = 0

-- how many of the events are those of a handler
abbrev pub count : Ptr → List (Ptr × ℕ) → ℕ
count r [] = 0
count r ((p, events) ∷ rest) = num (is_set p && (p == r)) + count r rest

one_or_more : (n : ℕ) → 1 ≤ n → (n ≡ 1) ⊎ (1 < n)
one_or_more n h = ground arith

module _ {X : Type 0} (destroy : X → Outcome X) where
  -- The loop is sound, and holds so many references of each handler, beside the one of a registered
  -- handler. Such a handler is alive, and can be deleted once it is not registered any more.
  pub record Keeps (w : EventLoop X) (now : ℕ) (held : Ptr → ℕ) : Type 0 where
    pub order : List Ptr
    pub inv : Inv w now order
    pub counts : (r : Ptr) → held r + num (w.handlers r).registered ≤ (w.handlers r).ref_count
    pub alive : (r : Ptr) → 0 < held r → (r ≢ null) × ((w.handlers r).freed ≡ false)
    pub ends :
        (r : Ptr)
        → 0 < held r
        → (w.handlers r).registered ≡ false
        → (x : X) × (destroy (w.handlers r).derived ≡ ok x)

  -- The same after a change to reference counts only.
  Keeps-counted :
      (w : EventLoop X) {u : EventLoop X} {now : ℕ} {less : Ptr → ℕ} (order : List Ptr)
      → Inv u now order
      → ((r : Ptr) → (u.handlers r).registered ≡ (w.handlers r).registered)
      → ((r : Ptr) → (u.handlers r).freed ≡ (w.handlers r).freed)
      → ((r : Ptr) → (u.handlers r).derived ≡ (w.handlers r).derived)
      → ((r : Ptr) → less r + num (w.handlers r).registered ≤ (u.handlers r).ref_count)
      → ((r : Ptr) → 0 < less r → (r ≢ null) × ((w.handlers r).freed ≡ false))
      → ((r : Ptr)
          → 0 < less r
          → (w.handlers r).registered ≡ false
          → (x : X) × (destroy (w.handlers r).derived ≡ ok x))
      → Keeps u now less
  Keeps-counted w order v registered freed derived counts alive ends = record {
    order = order;
    inv = v;
    counts = λ r. omega (arith, counts r, ap num (registered r));
    alive = λ r h. ((alive r h).0, freed r ∙ (alive r h).1);
    ends = λ r h off.
        let (x, e) = ends r h (sym (registered r) ∙ off) in (x, ap destroy (derived r) ∙ e);
  }

  module _ (p : Ptr) (w : EventLoop X) (now : ℕ) (more less : Ptr → ℕ)
      (differ : (r : Ptr) → less r + num (p == r) ≤ more r) (v : Keeps w now more) where
    has_one : 1 ≤ more p
    has_one = ground (arith, differ p)

    dec_ref-some :
        1 < (w.handlers p).ref_count
        → (u : EventLoop X) × (dec_ref destroy p w ≡ ok u) × Keeps u now less
    dec_ref-some many = (
      set_handler p (record (w.handlers p) { ref_count = (w.handlers p).ref_count - 1 }) w,
      dec_ref-keep destroy p w (v.alive p has_one).0 (v.alive p has_one).1 many,
      Keeps-counted w v.order (Inv-set_live w p _ v.inv refl refl refl refl (omega arith))
          (λ r. ground arith) (λ r. ground arith) (λ r. ground arith)
          (λ r. ground (arith, v.counts r, differ r)) (λ r h. v.alive r (omega (arith, differ r)))
          (λ r h off. v.ends r (omega (arith, differ r)) off),
    )

    abbrev deleted : X → EventLoop X
    deleted x = set_handler p (record (w.handlers p) { ref_count = 0; freed = true; derived = x }) w

    deleted-other : (x : X) (r : Ptr) → r ≢ p → (deleted x).handlers r ≡ w.handlers r
    deleted-other x r ne = ground arith

    -- the last reference is that of the round, so the handler is not registered any more
    dec_ref-end :
        (w.handlers p).ref_count ≡ 1
        → (u : EventLoop X) × (dec_ref destroy p w ≡ ok u) × Keeps u now less
    dec_ref-end last =
        let off : (w.handlers p).registered ≡ false = ground (arith, v.counts p, differ p, last) in
        let out : p ∉ v.order = ground (arith, v.inv.live p) in
        let (x, e) = v.ends p has_one off in
        (
          deleted x,
          dec_ref-last destroy p w x (v.alive p has_one).0 (v.alive p has_one).1 last off e,
          record {
            order = v.order;
            inv = Inv-set_away w p _ v.inv out off;
            counts = λ r. ground (arith, v.counts r, differ r);
            alive = λ r h. ground (arith, v.alive r, v.counts r, differ r);
            ends = λ r h gone. elim (eq-cases r p) [
              | inl same ↦
                  absurd
                    (omega (arith, v.counts p, differ p, last, ap less same, h, ap num (==_refl p)))
              | inr ne ↦
                  let kept = deleted-other x r ne in
                  let (y, d) =
                    v.ends r (omega (arith, differ r))
                      (sym (ap (λ (k : Handler X). k.registered) kept) ∙ gone) in
                  (y, ap (λ (k : Handler X). destroy k.derived) kept ∙ d)
            ];
          },
        )

    -- A reference is given back. If it was the last one, the handler is not registered, and deleted.
    pub dec_ref-Keeps : (u : EventLoop X) × (dec_ref destroy p w ≡ ok u) × Keeps u now less
    dec_ref-Keeps =
        elim (one_or_more (w.handlers p).ref_count (omega (arith, v.counts p, has_one))) [
          | inl last ↦ dec_ref-end last
          | inr many ↦ dec_ref-some many
        ]

  module _ (p : Ptr) (w : EventLoop X) (now : ℕ) (less more : Ptr → ℕ)
      (differ : (r : Ptr) → more r ≤ less r + num (p == r)) (v : Keeps w now less) (h : p ≢ null)
      (on : (w.handlers p).registered ≡ true) where
    counted : EventLoop X
    counted = set_handler p (record (w.handlers p) { ref_count = (w.handlers p).ref_count + 1 }) w

    is_in : p ∈ v.order
    is_in = ground (arith, v.inv.away p)

    -- One reference more of a registered handler.
    pub inc_ref-Keeps :
        (u : EventLoop X) × (inc_ref p w ≡ ok u)
        × Keeps u now more
        × ((r : Ptr) → (u.handlers r).registered ≡ (w.handlers r).registered)
    unfolding counted
    inc_ref-Keeps = (
      counted,
      inc_ref-ok p w h (v.inv.live p is_in).alive,
      Keeps-counted w v.order (Inv-set_live w p _ v.inv refl refl refl refl (omega arith))
          (λ r. ground arith) (λ r. ground arith) (λ r. ground arith)
          (λ r. ground (arith, v.counts r, differ r))
          (λ r k. elim (eq-cases r p) [
            | inl e ↦
                (λ n. h (sym e ∙ n), ap (λ x. (w.handlers x).freed) e ∙ (v.inv.live p is_in).alive)
            | inr ne ↦ v.alive r (ground (arith, differ r, k))
          ])
          (λ r k off. elim (eq-cases r p) [
            | inl e ↦ absurd (let same = ap (λ x. (w.handlers x).registered) e in ground arith)
            | inr ne ↦ v.ends r (ground (arith, differ r, k)) off
          ]),
      λ r. ground arith,
    )
