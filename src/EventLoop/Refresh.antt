-- ===== src/EventLoop/Refresh.antt =====
-- `EventLoop::Refresh` of src/event_loop.cc.
use hcproxy.Common.{
  ℕ, ◌+◌, ◌≤◌, ◌≡◌, ◌≢◌, ap, List, [], ◌∷◌, ◌++◌, arith, ok, length-append, ◌∈◌, ◌∉◌, has-append,
  subst, not-mem-snoc, snoc-cases, ne_of_not-mem, mem_middle, mem_more, mem_less, eq-cases, inl,
  inr, le→leb, sym, ◌∙◌, pass,
}
use hcproxy.NodeList.{Ptr, null, NodeList, update_self, is_set_of}
use hcproxy.NodeList.Represents.{Holds, last, last-append, last-mem, Distinct-append}
use hcproxy.NodeList.AddTail.{add_tail-Holds}
use hcproxy.NodeList.Erase.{erase-Holds}
use hcproxy.EventLoop.{Handler, EventLoop, set_handler, refresh, check_tail}
use hcproxy.EventLoop.References.{deref-ok}
use hcproxy.EventLoop.Invariant.{Inv, IsLive, Rising, Rising-frame, Rising-snoc, Rising-without}

module _ {X : Type 0} (w : EventLoop X) (p : Ptr) (now : ℕ) where
  renewed : EventLoop X
  renewed = set_handler p (record (w.handlers p) { deadline = now + w.timeout }) w

  renewed_other : (q : Ptr) → q ≢ p → renewed.handlers q ≡ w.handlers q
  unfolding renewed
  renewed_other q ne = ground arith

  renewed_self : renewed.handlers p ≡ record (w.handlers p) { deadline = now + w.timeout }
  unfolding renewed
  renewed_self = update_self w.handlers p _

  module _ {t : ℕ} (xs ys : List Ptr) (le : t ≤ now) (v : Inv w t (xs ++ p ∷ ys)) where
    renewed_recent : (q : Ptr) → q ∈ xs ++ p ∷ ys → (renewed.handlers q).deadline ≤ now + w.timeout
    unfolding renewed
    renewed_recent q i = elim (eq-cases q p) [
      | inl s ↦ ground arith
      | inr ne ↦ ground (arith, v.recent q)
    ]

    renewed-IsLive : (q : Ptr) → q ∈ xs ++ p ∷ ys → IsLive renewed q
    unfolding renewed
    renewed-IsLive q i = record {
      registered = ground (arith, (v.live q i).registered);
      alive = ground (arith, (v.live q i).alive);
      referred = ground (arith, (v.live q i).referred);
      watches = ground (arith, (v.live q i).watches);
    }

    tail-mem : w.expire.tail ∈ xs ++ p ∷ ys
    tail-mem =
        rw (v.ordered.tail_last, last-append null xs p ys)
          (ground (arith, has-append (last p ys) xs (p ∷ ys), last-mem p ys))

    -- the check of `Refresh` that the deadlines do not fall
    check_tail-ok : check_tail w.expire.tail (now + w.timeout) renewed ≡ ok tt
    unfolding check_tail
    check_tail-ok = elim (eq-cases w.expire.tail null) [
      | inl e ↦ ground arith
      | inr ne ↦
          rw
            (
              is_set_of w.expire.tail ne,
              deref-ok w.expire.tail renewed ne (renewed-IsLive w.expire.tail tail-mem).alive,
            )
            (pass (le→leb _ _ (renewed_recent w.expire.tail tail-mem)))
    ]

    self_out : p ∉ xs ++ ys
    self_out = ground (arith, Distinct-append xs ys p v.ordered.distinct, has-append p xs ys)

    mem_back : (q : Ptr) → q ∈ (xs ++ ys) ++ p ∷ [] → q ∈ xs ++ p ∷ ys
    mem_back q i = elim (snoc-cases q p (xs ++ ys) i) [
      | inl e ↦ subst (λ r. r ∈ xs ++ p ∷ ys) (sym e) (mem_middle p xs ys)
      | inr j ↦ mem_more p xs ys q j
    ]

    not-mem_back : (q : Ptr) → q ∉ (xs ++ ys) ++ p ∷ [] → q ∉ xs ++ p ∷ ys
    not-mem_back q i = let (ne, out) = not-mem-snoc q p (xs ++ ys) i in mem_less p xs ys q ne out

    renewed-Rising : Rising renewed.handlers 0 ((xs ++ ys) ++ p ∷ [])
    renewed-Rising =
        Rising-snoc renewed.handlers 0 (xs ++ ys) p
          (Rising-frame w.handlers renewed.handlers 0 (xs ++ ys)
            (λ q i.
              ap (λ (h : Handler X). h.deadline)
                (renewed_other q (ne_of_not-mem q p (xs ++ ys) i self_out)))
            (Rising-without w.handlers 0 xs p ys v.rising))
          (omega arith) (λ q i. rw renewed_self (renewed_recent q (mem_more p xs ys q i)))

    fd_of : (q : Ptr) → (renewed.handlers q).fd ≡ (w.handlers q).fd
    unfolding renewed
    fd_of q = ground arith

    registered_of : (q : Ptr) → (renewed.handlers q).registered ≡ (w.handlers q).registered
    unfolding renewed
    registered_of q = ground arith

    moved : NodeList → EventLoop X
    moved e = record renewed { expire = e }

    moved-IsLive : (e : NodeList) (q : Ptr) → IsLive renewed q → IsLive (moved e) q
    unfolding moved
    moved-IsLive e q l = record {
      registered = l.registered;
      alive = l.alive;
      referred = l.referred;
      watches = l.watches;
    }

    moved-Inv :
        (e : NodeList) → Holds e ((xs ++ ys) ++ p ∷ []) → Inv (moved e) now ((xs ++ ys) ++ p ∷ [])
    unfolding moved renewed
    moved-Inv e h = record {
      on_thread = v.on_thread;
      ordered = h;
      rising = renewed-Rising;
      recent = λ q i. renewed_recent q (mem_back q i);
      counted = omega (
        arith,
        v.counted,
        length-append xs ys,
        length-append (xs ++ ys) (p ∷ []),
        length-append xs (p ∷ ys),
      );
      live = λ q i. moved-IsLive e q (renewed-IsLive q (mem_back q i));
      away = λ q i. registered_of q ∙ v.away q (not-mem_back q i);
      own_fd =
          λ q r i j s. v.own_fd q r (mem_back q i) (mem_back r j) (sym (fd_of q) ∙ s ∙ fd_of r);
    }

    -- `Refresh` of a registered handler runs through all its checks, that of the deadlines too, given
    -- a clock that does not run back. The handler is now the last to expire, at `now + timeout_`.
    pub refresh-Inv :
        p ≢ null
        → (u : EventLoop X) × (refresh now p w ≡ ok u)
          × Inv u now ((xs ++ ys) ++ p ∷ [])
          × (u.handlers p ≡ record (w.handlers p) { deadline = now + w.timeout })
          × ((q : Ptr) → q ≢ p → u.handlers q ≡ w.handlers q)
    unfolding refresh moved renewed
    refresh-Inv h =
        let l = v.live p (mem_middle p xs ys) in
        let (d, erased, out) = erase-Holds w.expire p xs ys v.ordered in
        let (e, added, holds) = add_tail-Holds p d (xs ++ ys) out h self_out in
        (
          moved e,
          rw (
            deref-ok p w h l.alive,
            pass l.registered,
            pass v.on_thread,
            check_tail-ok,
            erased,
            added,
          ),
          moved-Inv e holds,
          renewed_self,
          renewed_other,
        )
