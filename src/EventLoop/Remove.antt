-- ===== src/EventLoop/Remove.antt =====
-- `EventLoop::Remove` and `EventLoop::Modify` of src/event_loop.cc.
use hcproxy.Common.{
  ℕ, ◌+◌, ◌-◌, ◌<◌, ◌≡◌, ◌≢◌, refl, ap, true, false, List, ◌∷◌, ◌++◌, arith, Outcome, ok,
  length-append, ◌∈◌, ◌∉◌, has-append, mem_middle, mem_more, mem_less, eq-cases, ne_of_not-mem, inl,
  inr, sym, ◌∙◌, pass, ◌==◌, if◌then◌else◌,
}
use hcproxy.NodeList.{Ptr, null, NodeList, update, update_self, erase}
use hcproxy.NodeList.Represents.{Holds, Distinct-append}
use hcproxy.NodeList.Erase.{erase-Holds}
use hcproxy.Epoll.{Ctl, CtlOp, EPoll, watched, IsDocumented, epoll_remove, epoll_modify}
use hcproxy.EventLoop.{Handler, EventLoop, set_handler, remove, modify, dec_ref}
use hcproxy.EventLoop.References.{deref-ok, dec_ref-keep, dec_ref-last}
use hcproxy.EventLoop.Invariant.{Inv, IsLive, Rising-frame, Rising-without, Inv-set_away}

module _ {X : Type 0} (w : EventLoop X) (p : Ptr) where
  -- the loop without `p`, before the reference is given back
  unlinked_epoll : EPoll
  unlinked_epoll = record w.epoll {
    calls =
        record { op = CtlOp.remove; fd = (w.handlers p).fd; events = 0; handler = 0 }
        ∷ w.epoll.calls;
    total_events = w.epoll.total_events - 1;
  }

  unlinked : NodeList → EventLoop X
  unfolding unlinked_epoll
  unlinked e = record w {
    handlers = update w.handlers p (record (w.handlers p) { registered = false });
    expire = e;
    epoll = unlinked_epoll;
  }

  unlinked_other : (e : NodeList) (q : Ptr) → q ≢ p → (unlinked e).handlers q ≡ w.handlers q
  unfolding unlinked
  unlinked_other e q ne = ground arith

  module _ {t : ℕ} (xs ys : List Ptr) (e : NodeList) (v : Inv w t (xs ++ p ∷ ys)) where
    pub self_out : p ∉ xs ++ ys
    self_out = ground (arith, Distinct-append xs ys p v.ordered.distinct, has-append p xs ys)

    ne_self : (q : Ptr) → q ∈ xs ++ ys → q ≢ p
    ne_self q i = ne_of_not-mem q p (xs ++ ys) i self_out

    other_fd : (q : Ptr) → q ∈ xs ++ ys → (w.handlers q).fd ≢ (w.handlers p).fd
    other_fd q i s = ne_self q i (v.own_fd q p (mem_more p xs ys q i) (mem_middle p xs ys) s)

    unlinked-IsLive : (q : Ptr) → q ∈ xs ++ ys → IsLive (unlinked e) q
    unfolding unlinked
    unlinked-IsLive q i =
        let l = v.live q (mem_more p xs ys q i) in
        let ne = ne_self q i in
        record {
          registered = rw (unlinked_other e q ne) l.registered;
          alive = rw (unlinked_other e q ne) l.alive;
          referred = rw (unlinked_other e q ne) l.referred;
          watches = rw (unlinked_other e q ne) (ground (arith, l.watches, other_fd q i));
        }

    unlinked_away : (q : Ptr) → q ∉ xs ++ ys → ((unlinked e).handlers q).registered ≡ false
    unfolding unlinked
    unlinked_away q i = elim (eq-cases q p) [
      | inl s ↦ ground arith
      | inr ne ↦ rw (unlinked_other e q ne) (v.away q (mem_less p xs ys q ne i))
    ]

    unlinked-Inv : Holds e (xs ++ ys) → Inv (unlinked e) t (xs ++ ys)
    unfolding unlinked
    unlinked-Inv h = record {
      on_thread = v.on_thread;
      ordered = h;
      rising =
          Rising-frame w.handlers (unlinked e).handlers 0 (xs ++ ys) (λ q i. ground arith)
            (Rising-without w.handlers 0 xs p ys v.rising);
      recent = λ q i. rw (unlinked_other e q (ne_self q i)) (v.recent q (mem_more p xs ys q i));
      counted = omega (arith, v.counted, length-append xs ys, length-append xs (p ∷ ys));
      live = unlinked-IsLive;
      away = unlinked_away;
      own_fd = λ q r i j s. v.own_fd q r (mem_more p xs ys q i) (mem_more p xs ys r j) (
          ap (λ (h : Handler X). h.fd) (sym (unlinked_other e q (ne_self q i)))
          ∙ s
          ∙ ap (λ (h : Handler X). h.fd) (unlinked_other e r (ne_self r j)));
    }

  -- How many references the handler has afterwards, and whether it is deleted.
  abbrev pub released : X → Handler X
  released x =
      if (w.handlers p).ref_count == 1
      then record (w.handlers p) { registered = false; ref_count = 0; freed = true; derived = x }
      else record (w.handlers p) { registered = false; ref_count = (w.handlers p).ref_count - 1 }

  -- with a further reference it lives on
  pub released_kept :
      (x : X)
      → 1 < (w.handlers p).ref_count
      → released x
        ≡ record (w.handlers p) { registered = false; ref_count = (w.handlers p).ref_count - 1 }
  released_kept x h = ground arith

  module _ (destroy : X → Outcome X) (x : X) (d : destroy (w.handlers p).derived ≡ ok x)
      (e : NodeList) where
    unlinked_self : (unlinked e).handlers p ≡ record (w.handlers p) { registered = false }
    unfolding unlinked
    unlinked_self = update_self w.handlers p _

    dec_ref-released :
        p ≢ null
        → (w.handlers p).freed ≡ false
        → 0 < (w.handlers p).ref_count
        → dec_ref destroy p (unlinked e) ≡ ok (set_handler p (released x) (unlinked e))
    dec_ref-released h f r = elim (eq-cases (w.handlers p).ref_count 1) [
      | inl s ↦
          dec_ref-last destroy p (unlinked e) x h (rw unlinked_self f) (rw unlinked_self s)
            (rw unlinked_self) (rw unlinked_self d)
          ∙ ap (λ k. ok (set_handler p k (unlinked e))) (ground (arith, unlinked_self))
      | inr ne ↦
          dec_ref-keep destroy p (unlinked e) h (rw unlinked_self f)
            (rw unlinked_self (omega arith))
          ∙ ap (λ k. ok (set_handler p k (unlinked e))) (ground (arith, unlinked_self))
    ]

  module _ (epoll_ctl : Ctl) (documented : IsDocumented epoll_ctl) where
    epoll_remove-ok :
        0 < w.epoll.total_events
        → watched w.epoll.calls (w.handlers p).fd ≡ true
        → epoll_remove epoll_ctl (w.handlers p).fd w.epoll ≡ ok unlinked_epoll
    unfolding epoll_remove unlinked_epoll
    epoll_remove-ok r h = ground (
      arith,
      documented.succeeds w.epoll.calls
          (record { op = CtlOp.remove; fd = (w.handlers p).fd; events = 0; handler = 0 }),
    )

    module _ (destroy : X → Outcome X) (x : X) (d : destroy (w.handlers p).derived ≡ ok x) where
      remove-released :
          {t : ℕ} (xs ys : List Ptr) (e : NodeList)
          → Inv w t (xs ++ p ∷ ys)
          → p ≢ null
          → erase p w.expire ≡ ok e
          → remove epoll_ctl destroy p w ≡ ok (set_handler p (released x) (unlinked e))
      unfolding remove unlinked
      remove-released xs ys e v h done =
          let l = v.live p (mem_middle p xs ys) in
          rw
            (
              deref-ok p w h l.alive,
              pass l.registered,
              pass v.on_thread,
              done,
              epoll_remove-ok (omega (arith, v.counted)) l.watches,
            )
            (dec_ref-released destroy x d e h l.alive l.referred)

      -- `Remove` of a registered handler runs through all its checks. It takes the handler out of the
      -- list, and gives its reference back: the handler is deleted exactly if that was the last one.
      pub remove-Inv :
          {t : ℕ} (xs ys : List Ptr)
          → Inv w t (xs ++ p ∷ ys)
          → p ≢ null
          → (u : EventLoop X) × (remove epoll_ctl destroy p w ≡ ok u)
            × Inv u t (xs ++ ys)
            × ((u.handlers p).ref_count + 1 ≡ (w.handlers p).ref_count)
            × ((u.handlers p).freed ≡ ((w.handlers p).ref_count == 1))
            × (u.handlers p ≡ released x)
            × ((q : Ptr) → q ≢ p → u.handlers q ≡ w.handlers q)
      remove-Inv xs ys v h =
          let (e, done, holds) = erase-Holds w.expire p xs ys v.ordered in
          let l = v.live p (mem_middle p xs ys) in
          (
            set_handler p (released x) (unlinked e),
            remove-released xs ys e v h done,
            Inv-set_away (unlinked e) p (released x) (unlinked-Inv xs ys e v holds)
                (self_out xs ys e v) (ground arith),
            rw (update_self (unlinked e).handlers p (released x)) (ground (arith, l.referred)),
            rw (update_self (unlinked e).handlers p (released x)) (ground (arith, l.alive)),
            update_self (unlinked e).handlers p (released x),
            λ q ne. ground (arith, unlinked_other e q ne),
          )

  module _ (epoll_ctl : Ctl) (documented : IsDocumented epoll_ctl) (events : ℕ) where
    modified : EventLoop X
    modified = record w {
      epoll = record w.epoll {
        calls =
            record { op = CtlOp.modify; fd = (w.handlers p).fd; events = events; handler = p }
            ∷ w.epoll.calls;
      };
    }

    epoll_modify-ok :
        0 < w.epoll.total_events
        → watched w.epoll.calls (w.handlers p).fd ≡ true
        → epoll_modify epoll_ctl (w.handlers p).fd events p w.epoll ≡ ok modified.epoll
    unfolding epoll_modify modified
    epoll_modify-ok r h = ground (
      arith,
      documented.succeeds w.epoll.calls
          (record { op = CtlOp.modify; fd = (w.handlers p).fd; events = events; handler = p }),
    )

    modified-IsLive :
        (q : Ptr) → watched w.epoll.calls (w.handlers p).fd ≡ true → IsLive w q → IsLive modified q
    unfolding modified
    modified-IsLive q h l = record {
      registered = l.registered;
      alive = l.alive;
      referred = l.referred;
      watches = ground (arith, l.watches);
    }

    -- `Modify` of a registered handler runs through all its checks, and tells the kernel what to
    -- watch its socket for; the handlers and their order stay as they are.
    pub modify-Inv :
        {t : ℕ} {order : List Ptr}
        → Inv w t order
        → p ∈ order
        → p ≢ null
        → (u : EventLoop X) × (modify epoll_ctl p events w ≡ ok u)
          × Inv u t order
          × (u.handlers ≡ w.handlers)
          × (u.epoll.calls
              ≡ record { op = CtlOp.modify; fd = (w.handlers p).fd; events = events; handler = p }
                ∷ w.epoll.calls)
    unfolding modify modified
    modify-Inv v i h =
        let l = v.live p i in
        (
          modified,
          rw (
            deref-ok p w h l.alive,
            pass l.registered,
            pass v.on_thread,
            epoll_modify-ok (omega (arith, v.counted)) l.watches,
          ),
          record {
            on_thread = v.on_thread;
            ordered = v.ordered;
            rising = v.rising;
            recent = v.recent;
            counted = v.counted;
            live = λ q j. modified-IsLive q l.watches (v.live q j);
            away = v.away;
            own_fd = v.own_fd;
          },
          refl,
          refl,
        )
