-- ===== src/Forwarder/Link/Fill.antt =====
-- The first half of a round of `ForwardFromOther` in src/forwarder.cc: from the other link into the
-- pipe.
use hcproxy.Common.{
  ℕ, suc, ◌+◌, ◌≤◌, ◌≡◌, ◌≢◌, refl, ap, sym, ◌∙◌, subst, true, false, List, arith, ok, inl, inr,
  length, length-append, length-pos, Bool-cases, if_true, if_false,
}
use hcproxy.NodeList.{Ptr}
use hcproxy.EventLoop.{Handler, EventLoop, deref}
use hcproxy.EventLoop.References.{deref-ok}
use hcproxy.Forwarder.{Buffer, IoStatus, data_moved, eof, error, no_op, write_from}
use hcproxy.Forwarder.Transfer.{IsSound, Filled, goes_on, write_from-Filled}
use hcproxy.Forwarder.Link.{
  Link, set_link, Net, Half, io, idle, broken, is_io, after_fill, fill, close_for_reading,
  terminate,
}
use hcproxy.Forwarder.Link.Sides.{num, Tunnel, swap, SameElse}
use hcproxy.Forwarder.Link.Frame.{set_link-at, set_link-other, set_link-Tunnel}
use hcproxy.Forwarder.Link.Terminate.{Torn, terminate-Torn}
use hcproxy.Forwarder.Link.Shut.{Shut, close_for_reading-Shut}
use hcproxy.Forwarder.Link.Flow.{
  Calls, IsFinite, Flow, Stepped, SameElse-trans, SameElse-refl, Torn-Flow, Torn-burden,
}

module _ {W : Type 0} (c : Calls W) (supply : W → ℕ) (finite : IsFinite c.kernel supply) (n : Net W)
    (t : ℕ) (order : List Ptr) (p q : Ptr) (a b : ℕ) (v : Flow n.loop t order p q a b) where
  -- the other link, by its name and through the pointer
  deref-other : deref (n.loop.handlers p).derived.other n.loop ≡ ok (n.loop.handlers q)
  deref-other =
      ap (λ r. deref r n.loop) v.tunnel.left.joined
      ∙ deref-ok q n.loop v.tunnel.right.is_set v.tunnel.right.alive

  fill-idle :
      (n.loop.handlers q).derived.readable ≡ false
      → fill c.epoll_ctl c.close c.shutdown c.kernel p n ≡ ok (idle, n)
  unfolding fill
  fill-idle silent =
      rw (deref-ok p n.loop v.tunnel.left.is_set v.tunnel.left.alive, deref-other)
        (sym (if_false _ _ silent))

  module _ (readable : (n.loop.handlers q).derived.readable ≡ true)
      (f : Filled c.kernel
        (n.loop.handlers q).fd
        n.kernel
        (n.loop.handlers p).derived.out
        (write_from c.kernel (n.loop.handlers q).fd (n.loop.handlers p).derived.out n.kernel)) where
    filled_link : Link
    filled_link = record (n.loop.handlers p).derived { out = f.after }

    filled_loop : EventLoop Link
    unfolding filled_link
    filled_loop = set_link p filled_link n.loop

    fill-returns :
        (h : Half) (u : EventLoop Link)
        → after_fill c.epoll_ctl c.close c.shutdown c.kernel p q f.status filled_loop ≡ ok (h, u)
        → fill c.epoll_ctl c.close c.shutdown c.kernel p n
          ≡ ok (h, record { loop = u; kernel = f.kernel })
    unfolding fill filled_loop filled_link
    fill-returns h u e =
        rw (deref-ok p n.loop v.tunnel.left.is_set v.tunnel.left.alive, deref-other)
          (sym (if_true _ _ readable)
            ∙ rw
                (
                  f.returns,
                  ap
                        (λ r.
                          after_fill c.epoll_ctl c.close c.shutdown c.kernel p r f.status
                            filled_loop)
                        v.tunnel.left.joined
                      ∙ e,
                )
                refl)

    filled-Tunnel : Tunnel filled_loop t order p q (suc a) (suc b)
    unfolding filled_loop filled_link
    filled-Tunnel = set_link-Tunnel n.loop p q filled_link refl refl refl v.tunnel

    filled-at : (filled_loop.handlers p).derived ≡ filled_link
    unfolding filled_loop filled_link
    filled-at =
        ap (λ (h : Handler Link). h.derived) (set_link-at n.loop p q filled_link refl refl refl)

    filled-other : (r : Ptr) → r ≢ p → filled_loop.handlers r ≡ n.loop.handlers r
    unfolding filled_loop filled_link
    filled-other r ne = set_link-other n.loop p q filled_link refl refl refl r ne

    filled-SameElse : SameElse n.loop filled_loop order order p q
    filled-SameElse = record { members = λ r np nq. refl; handlers = λ r np nq. filled-other r np }

    filled-q : (filled_loop.handlers q).derived ≡ (n.loop.handlers q).derived
    filled-q = ap (λ (h : Handler Link). h.derived) (filled-other q (λ e. v.tunnel.apart (sym e)))

    spent : supply f.kernel + length f.chunk ≤ supply n.kernel
    spent = elim f.origin [
      | inl (k, e) ↦ omega (arith, ap supply k, ap (length {0}) e)
      | inr (m, k, e) ↦
          omega
            (arith, ap supply k, ap (length {0}) e, finite.used (n.loop.handlers q).fd m n.kernel)
    ]

    grown : f.after.size ≡ (n.loop.handlers p).derived.out.size + length f.chunk
    grown = omega (
      arith,
      f.sound.counts,
      v.there.sound.counts,
      ap (length {0}) f.queued,
      length-append (n.loop.handlers p).derived.out.queued f.chunk,
    )

    -- a loop in which the pipe is filled, and the other link is perhaps not readable any more
    refilled :
        (h : Half) (u : EventLoop Link) (rest : List Ptr)
        → after_fill c.epoll_ctl c.close c.shutdown c.kernel p q f.status filled_loop ≡ ok (h, u)
        → Tunnel u t rest p q (suc a) (suc b)
        → (u.handlers p).derived ≡ filled_link
        → ((u.handlers q).derived.readable ≡ true → f.after.write_open ≡ true)
        → (u.handlers q).derived.writable ≡ (n.loop.handlers q).derived.writable
        → (u.handlers q).derived.out ≡ (n.loop.handlers q).derived.out
        → num (is_io h) + num (u.handlers q).derived.readable
          ≤ length f.chunk + num (n.loop.handlers q).derived.readable
        → SameElse filled_loop u order rest p q
        → Stepped supply n t order p q a b (fill c.epoll_ctl c.close c.shutdown c.kernel p n)
    unfolding filled_link
    refilled h u rest e tunnel at feeds writes out less same =
        let x = (n.loop.handlers p).derived in
        let out_at = ap (λ (y : Link). y.out) at in
        let writable_at = ap (λ (y : Link). y.writable) at in
        let readable_at = ap (λ (y : Link). y.readable) at in
        record {
          half = h;
          after = record { loop = u; kernel = f.kernel };
          rest = rest;
          returns = fill-returns h u e;
          flow = record {
            tunnel = tunnel;
            there = record {
              sound = subst IsSound (sym out_at) f.sound;
              fed = λ r. ap (λ (y : Buffer). y.write_open) out_at ∙ feeds r;
              drawn = λ w.
                  ap (λ (y : Buffer). y.read_open) out_at
                  ∙ f.kept.0
                  ∙ v.there.drawn (sym writable_at ∙ w);
            };
            back = record {
              sound = subst IsSound (sym out) v.back.sound;
              fed = λ r. ap (λ (y : Buffer). y.write_open) out ∙ v.back.fed (sym readable_at ∙ r);
              drawn = λ w. ap (λ (y : Buffer). y.read_open) out ∙ v.back.drawn (sym writes ∙ w);
            };
          };
          lower = λ _.
              omega
                (arith, less, spent, grown, ap (λ (y : Buffer). y.size) out_at, ap num writable_at);
          no_more = omega (
            arith,
            less,
            spent,
            grown,
            ap (λ (y : Buffer). y.size) out_at,
            ap (λ (y : Buffer). y.size) out,
            ap num writable_at,
            ap num readable_at,
            ap num writes,
          );
          same = SameElse-trans filled-SameElse same;
        }

    filled_still :
        (h : Half)
        → after_fill c.epoll_ctl c.close c.shutdown c.kernel p q f.status filled_loop
          ≡ ok (h, filled_loop)
        → goes_on f.status ≡ true
        → num (is_io h) ≤ length f.chunk
        → Stepped supply n t order p q a b (fill c.epoll_ctl c.close c.shutdown c.kernel p n)
    filled_still h e on less =
        refilled h filled_loop order e filled-Tunnel filled-at (λ _. f.write_end ∙ on)
          (ap (λ (y : Link). y.writable) filled-q) (ap (λ (y : Link). y.out) filled-q)
          (omega (arith, less, ap (λ (y : Link). num y.readable) filled-q))
          (SameElse-refl filled_loop order p q)

    filled_end :
        f.status ≡ eof
        → Shut filled_loop t order q p
            (suc b)
            (suc a)
            (close_for_reading c.epoll_ctl c.close c.shutdown c.kernel q filled_loop)
        → Stepped supply n t order p q a b (fill c.epoll_ctl c.close c.shutdown c.kernel p n)
    unfolding after_fill
    filled_end e s =
        refilled io s.after s.rest
          (ap (λ x. after_fill c.epoll_ctl c.close c.shutdown c.kernel p q x filled_loop) e
            ∙ rw s.returns refl)
          (swap s.tunnel) (s.spared ∙ filled-at) (λ r. absurd (ground (arith, s.deaf)))
          (s.writes ∙ ap (λ (y : Link). y.writable) filled-q)
          (s.out_kept ∙ ap (λ (y : Link). y.out) filled-q)
          (omega (arith, ap num s.deaf, ap num readable))
          (record {
            members = λ r np nq. s.same.members r nq np;
            handlers = λ r np nq. s.same.handlers r nq np;
          })

    filled_broken :
        f.status ≡ error
        → Torn filled_loop t order p q
            (suc a)
            (suc b)
            (terminate c.epoll_ctl c.close c.shutdown c.kernel p filled_loop)
        → Stepped supply n t order p q a b (fill c.epoll_ctl c.close c.shutdown c.kernel p n)
    unfolding after_fill filled_link
    filled_broken e s = record {
      half = broken;
      after = record { loop = s.after; kernel = f.kernel };
      rest = s.rest;
      returns = fill-returns broken s.after (
          ap (λ x. after_fill c.epoll_ctl c.close c.shutdown c.kernel p q x filled_loop) e
          ∙ rw s.returns refl);
      flow =
          Torn-Flow s (subst IsSound (sym (ap (λ (y : Link). y.out) filled-at)) f.sound)
            (subst IsSound (sym (ap (λ (y : Link). y.out) filled-q)) v.back.sound);
      lower = λ ne. absurd (ne refl);
      no_more = omega (
        arith,
        Torn-burden s supply f.kernel,
        spent,
        grown,
        ap (λ (y : Link). y.out.size) filled-at,
        ap (λ (y : Link). y.out.size) filled-q,
      );
      same = SameElse-trans filled-SameElse s.same;
    }

    filled_by :
        (s : IoStatus)
        → f.status ≡ s
        → Stepped supply n t order p q a b (fill c.epoll_ctl c.close c.shutdown c.kernel p n)
    unfolding after_fill
    filled_by data_moved e =
        filled_still io
          (ap (λ x. after_fill c.epoll_ctl c.close c.shutdown c.kernel p q x filled_loop) e)
          (ap goes_on e) (length-pos f.chunk (f.moves.0 e))
    filled_by no_op e =
        filled_still idle
          (ap (λ x. after_fill c.epoll_ctl c.close c.shutdown c.kernel p q x filled_loop) e)
          (ap goes_on e) (omega arith)
    filled_by eof e = filled_end e (
        close_for_reading-Shut c.epoll_ctl c.ctl_documented c.close c.closes c.shutdown c.shuts
          c.kernel c.splice_documented.closes filled_loop t q p b a (swap filled-Tunnel)
          (ap (λ (y : Link). y.readable) filled-q ∙ readable))
    filled_by error e = filled_broken e (
        terminate-Torn c.epoll_ctl c.ctl_documented c.close c.closes c.shutdown c.kernel
          c.splice_documented.closes filled_loop t p q a b filled-Tunnel)

  -- The first half of a round passes all its checks and leaves a tunnel with sound pipes.
  pub fill-Stepped :
      Stepped supply n t order p q a b (fill c.epoll_ctl c.close c.shutdown c.kernel p n)
  fill-Stepped = elim (Bool-cases (n.loop.handlers q).derived.readable) [
    | inr silent ↦ record {
      half = idle;
      after = n;
      rest = order;
      returns = fill-idle silent;
      flow = v;
      lower = λ _. omega arith;
      no_more = omega arith;
      same = SameElse-refl n.loop order p q;
    }
    | inl readable ↦
        let f =
          write_from-Filled c.kernel c.splice_documented (n.loop.handlers p).derived.out
            v.there.sound (n.loop.handlers q).fd n.kernel (v.there.fed readable) in
        filled_by readable f f.status refl
  ]
