-- ===== src/Forwarder/Link/Drain.antt =====
-- The second half of a round of `ForwardFromOther` in src/forwarder.cc: from the pipe into this
-- link.
use hcproxy.Common.{
  ℕ, suc, ◌+◌, ◌≤◌, ◌≡◌, ◌≢◌, refl, ap, sym, ◌∙◌, subst, true, false, List, arith, ok, inl, inr,
  length, length-append, length-pos, Bool-cases, if_true, if_false,
}
use hcproxy.NodeList.{Ptr}
use hcproxy.EventLoop.{Handler, EventLoop}
use hcproxy.EventLoop.References.{deref-ok}
use hcproxy.Forwarder.{Buffer, IoStatus, data_moved, eof, error, no_op, read_to}
use hcproxy.Forwarder.Transfer.{IsSound, Drained, goes_on, read_to-Drained}
use hcproxy.Forwarder.Link.{
  Link, set_link, Net, Half, io, idle, broken, is_io, after_drain, drain, close_for_writing,
  terminate,
}
use hcproxy.Forwarder.Link.Sides.{num, Tunnel, SameElse}
use hcproxy.Forwarder.Link.Frame.{set_link-at, set_link-other, set_link-Tunnel}
use hcproxy.Forwarder.Link.Terminate.{Torn, terminate-Torn}
use hcproxy.Forwarder.Link.Shut.{Muted, close_for_writing-Muted}
use hcproxy.Forwarder.Link.Flow.{
  Calls, IsFinite, Flow, Stepped, SameElse-trans, SameElse-refl, Torn-Flow, Torn-burden,
}

module _ {W : Type 0} (c : Calls W) (supply : W → ℕ) (finite : IsFinite c.kernel supply) (n : Net W)
    (t : ℕ) (order : List Ptr) (p q : Ptr) (a b : ℕ) (v : Flow n.loop t order p q a b) where
  drain-idle :
      (n.loop.handlers p).derived.writable ≡ false
      → drain c.epoll_ctl c.close c.shutdown c.kernel p n ≡ ok (idle, n)
  unfolding drain
  drain-idle silent =
      rw (deref-ok p n.loop v.tunnel.left.is_set v.tunnel.left.alive) (sym (if_false _ _ silent))

  module _ (writable : (n.loop.handlers p).derived.writable ≡ true)
      (f : Drained c.kernel
        (n.loop.handlers p).fd
        n.kernel
        (n.loop.handlers p).derived.out
        (read_to c.kernel (n.loop.handlers p).fd (n.loop.handlers p).derived.out n.kernel)) where
    drained_link : Link
    drained_link = record (n.loop.handlers p).derived { out = f.after }

    drained_loop : EventLoop Link
    unfolding drained_link
    drained_loop = set_link p drained_link n.loop

    drain-returns :
        (h : Half) (u : EventLoop Link)
        → after_drain c.epoll_ctl c.close c.shutdown c.kernel p f.status drained_loop ≡ ok (h, u)
        → drain c.epoll_ctl c.close c.shutdown c.kernel p n
          ≡ ok (h, record { loop = u; kernel = f.kernel })
    unfolding drain drained_loop drained_link
    drain-returns h u e =
        rw (deref-ok p n.loop v.tunnel.left.is_set v.tunnel.left.alive)
          (sym (if_true _ _ writable) ∙ rw (f.returns, e) refl)

    drained-Tunnel : Tunnel drained_loop t order p q (suc a) (suc b)
    unfolding drained_loop drained_link
    drained-Tunnel = set_link-Tunnel n.loop p q drained_link refl refl refl v.tunnel

    drained-at : (drained_loop.handlers p).derived ≡ drained_link
    unfolding drained_loop drained_link
    drained-at =
        ap (λ (h : Handler Link). h.derived) (set_link-at n.loop p q drained_link refl refl refl)

    drained-other : (r : Ptr) → r ≢ p → drained_loop.handlers r ≡ n.loop.handlers r
    unfolding drained_loop drained_link
    drained-other r ne = set_link-other n.loop p q drained_link refl refl refl r ne

    drained-SameElse : SameElse n.loop drained_loop order order p q
    drained-SameElse = record {
      members = λ r np nq. refl;
      handlers = λ r np nq. drained-other r np;
    }

    drained-q : (drained_loop.handlers q).derived ≡ (n.loop.handlers q).derived
    drained-q = ap (λ (h : Handler Link). h.derived) (drained-other q (λ e. v.tunnel.apart (sym e)))

    supplied : supply f.kernel ≤ supply n.kernel
    supplied = elim f.target [
      | inl (k, e) ↦ omega (arith, ap supply k)
      | inr (k, e) ↦ omega (
        arith,
        ap supply k,
        finite.kept (n.loop.handlers p).derived.out.queued (n.loop.handlers p).fd
            (n.loop.handlers p).derived.out.size n.kernel,
      )
    ]

    shrunk : f.after.size + length f.chunk ≡ (n.loop.handlers p).derived.out.size
    shrunk = omega (
      arith,
      f.sound.counts,
      v.there.sound.counts,
      ap (length {0}) f.queued,
      length-append f.chunk f.after.queued,
    )

    -- a loop in which the pipe is drained, and this link is perhaps not writable any more
    redrained :
        (h : Half) (u : EventLoop Link) (rest : List Ptr)
        → after_drain c.epoll_ctl c.close c.shutdown c.kernel p f.status drained_loop ≡ ok (h, u)
        → Tunnel u t rest p q (suc a) (suc b)
        → (u.handlers q).derived ≡ (n.loop.handlers q).derived
        → ((u.handlers p).derived.writable ≡ true → f.after.read_open ≡ true)
        → (u.handlers p).derived.readable ≡ (n.loop.handlers p).derived.readable
        → (u.handlers p).derived.out ≡ f.after
        → num (is_io h) + num (u.handlers p).derived.writable
          ≤ length f.chunk + num (n.loop.handlers p).derived.writable
        → SameElse drained_loop u order rest p q
        → Stepped supply n t order p q a b (drain c.epoll_ctl c.close c.shutdown c.kernel p n)
    redrained h u rest e tunnel at draws reads out less same =
        let out_at = ap (λ (y : Link). y.out) at in
        let writable_at = ap (λ (y : Link). y.writable) at in
        let readable_at = ap (λ (y : Link). y.readable) at in
        record {
          half = h;
          after = record { loop = u; kernel = f.kernel };
          rest = rest;
          returns = drain-returns h u e;
          flow = record {
            tunnel = tunnel;
            there = record {
              sound = subst IsSound (sym out) f.sound;
              fed = λ r.
                  ap (λ (y : Buffer). y.write_open) out
                  ∙ f.kept.0
                  ∙ v.there.fed (sym readable_at ∙ r);
              drawn = λ w. ap (λ (y : Buffer). y.read_open) out ∙ draws w;
            };
            back = record {
              sound = subst IsSound (sym out_at) v.back.sound;
              fed = λ r. ap (λ (y : Buffer). y.write_open) out_at ∙ v.back.fed (sym reads ∙ r);
              drawn =
                  λ w. ap (λ (y : Buffer). y.read_open) out_at ∙ v.back.drawn (sym writable_at ∙ w);
            };
          };
          lower = λ _.
              omega (
                arith,
                less,
                supplied,
                shrunk,
                ap (λ (y : Buffer). y.size) out,
                ap num readable_at,
              );
          no_more = omega (
            arith,
            less,
            supplied,
            shrunk,
            ap (λ (y : Buffer). y.size) out,
            ap (λ (y : Buffer). y.size) out_at,
            ap num readable_at,
            ap num writable_at,
            ap num reads,
          );
          same = SameElse-trans drained-SameElse same;
        }

    drained_still :
        (h : Half)
        → after_drain c.epoll_ctl c.close c.shutdown c.kernel p f.status drained_loop
          ≡ ok (h, drained_loop)
        → goes_on f.status ≡ true
        → num (is_io h) ≤ length f.chunk
        → Stepped supply n t order p q a b (drain c.epoll_ctl c.close c.shutdown c.kernel p n)
    unfolding drained_link
    drained_still h e on less =
        redrained h drained_loop order e drained-Tunnel drained-q (λ _. f.read_end ∙ on)
          (ap (λ (y : Link). y.readable) drained-at) (ap (λ (y : Link). y.out) drained-at)
          (omega (arith, less, ap (λ (y : Link). num y.writable) drained-at))
          (SameElse-refl drained_loop order p q)

    drained_end :
        f.status ≡ eof
        → Muted drained_loop t order p q
            (suc a)
            (suc b)
            (close_for_writing c.epoll_ctl c.close c.shutdown c.kernel p drained_loop)
        → Stepped supply n t order p q a b (drain c.epoll_ctl c.close c.shutdown c.kernel p n)
    unfolding after_drain drained_link
    drained_end e s =
        redrained io s.after s.rest
          (ap (λ x. after_drain c.epoll_ctl c.close c.shutdown c.kernel p x drained_loop) e
            ∙ rw s.returns refl)
          s.tunnel (s.spared ∙ drained-q) (λ r. absurd (ground (arith, s.mute)))
          (s.reads ∙ ap (λ (y : Link). y.readable) drained-at)
          (s.out_kept ∙ ap (λ (y : Link). y.out) drained-at)
          (omega (arith, ap num s.mute, ap num writable)) s.same

    drained_broken :
        f.status ≡ error
        → Torn drained_loop t order p q
            (suc a)
            (suc b)
            (terminate c.epoll_ctl c.close c.shutdown c.kernel p drained_loop)
        → Stepped supply n t order p q a b (drain c.epoll_ctl c.close c.shutdown c.kernel p n)
    unfolding after_drain drained_link
    drained_broken e s = record {
      half = broken;
      after = record { loop = s.after; kernel = f.kernel };
      rest = s.rest;
      returns = drain-returns broken s.after (
          ap (λ x. after_drain c.epoll_ctl c.close c.shutdown c.kernel p x drained_loop) e
          ∙ rw s.returns refl);
      flow =
          Torn-Flow s (subst IsSound (sym (ap (λ (y : Link). y.out) drained-at)) f.sound)
            (subst IsSound (sym (ap (λ (y : Link). y.out) drained-q)) v.back.sound);
      lower = λ ne. absurd (ne refl);
      no_more = omega (
        arith,
        Torn-burden s supply f.kernel,
        supplied,
        shrunk,
        ap (λ (y : Link). y.out.size) drained-at,
        ap (λ (y : Link). y.out.size) drained-q,
      );
      same = SameElse-trans drained-SameElse s.same;
    }

    drained_by :
        (s : IoStatus)
        → f.status ≡ s
        → Stepped supply n t order p q a b (drain c.epoll_ctl c.close c.shutdown c.kernel p n)
    unfolding after_drain drained_link
    drained_by data_moved e =
        drained_still io
          (ap (λ x. after_drain c.epoll_ctl c.close c.shutdown c.kernel p x drained_loop) e)
          (ap goes_on e) (length-pos f.chunk (f.moves.0 e))
    drained_by no_op e =
        drained_still idle
          (ap (λ x. after_drain c.epoll_ctl c.close c.shutdown c.kernel p x drained_loop) e)
          (ap goes_on e) (omega arith)
    drained_by eof e = drained_end e (
        close_for_writing-Muted c.epoll_ctl c.ctl_documented c.close c.closes c.shutdown c.shuts
          c.kernel c.splice_documented.closes drained_loop t p q a b drained-Tunnel
          (ap (λ (y : Link). y.writable) drained-at ∙ writable))
    drained_by error e = drained_broken e (
        terminate-Torn c.epoll_ctl c.ctl_documented c.close c.closes c.shutdown c.kernel
          c.splice_documented.closes drained_loop t p q a b drained-Tunnel)

  -- The second half of a round passes all its checks and leaves a tunnel with sound pipes.
  pub drain-Stepped :
      Stepped supply n t order p q a b (drain c.epoll_ctl c.close c.shutdown c.kernel p n)
  drain-Stepped = elim (Bool-cases (n.loop.handlers p).derived.writable) [
    | inr silent ↦ record {
      half = idle;
      after = n;
      rest = order;
      returns = drain-idle silent;
      flow = v;
      lower = λ _. omega arith;
      no_more = omega arith;
      same = SameElse-refl n.loop order p q;
    }
    | inl writable ↦
        let f =
          read_to-Drained c.kernel c.splice_documented (n.loop.handlers p).derived.out v.there.sound
            (n.loop.handlers p).fd n.kernel (v.there.drawn writable) in
        drained_by writable f f.status refl
  ]
