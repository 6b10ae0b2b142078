-- ===== src/Forwarder/Link/OnEvent.antt =====
-- `OnEvent` of `LinkEventHandler` in src/forwarder.cc.
use hcproxy.Common.{
  ℕ, suc, ◌<◌, ◌≡◌, refl, sym, ◌∙◌, Bool, true, false, ◌||◌, List, arith, Outcome, Bool-cases, inl,
  inr, if_true, if_false,
}
use hcproxy.NodeList.{Ptr}
use hcproxy.Bits.{has_bits, epoll_in, epoll_out, epoll_err}
use hcproxy.Addr.{sock_error-ok}
use hcproxy.EventLoop.{EventLoop}
use hcproxy.EventLoop.References.{deref-ok}
use hcproxy.Forwarder.Link.{Link, Net, terminate, operand, process}
use hcproxy.Forwarder.Link.Sides.{swap}
use hcproxy.Forwarder.Link.Terminate.{Torn, terminate-Torn}
use hcproxy.Forwarder.Link.Flow.{
  Calls, IsFinite, Flow, burden, SameElse-trans, SameElse-refl, Torn-Flow, Torn-burden,
}
use hcproxy.Forwarder.Link.Forward.{Forwarded, forward_from_other-Forwarded}

-- The two links of a tunnel the other way round.
abbrev pub flip :
    {w : EventLoop Link} {t : ℕ} {order : List Ptr} {p q : Ptr} {a b : ℕ}
    → Flow w t order p q a b
    → Flow w t order q p b a
flip v = record { tunnel = swap v.tunnel; there = v.back; back = v.there }

flip-Forwarded :
    {W : Type 0} {supply : W → ℕ} {n : Net W} {t : ℕ} {order : List Ptr} {p q : Ptr} {a b : ℕ}
    {r : Outcome (Bool × Net W)}
    → Forwarded supply n t order p q a b r
    → Forwarded supply n t order q p b a r
flip-Forwarded f = record {
  result = f.result;
  after = f.after;
  rest = f.rest;
  returns = f.returns;
  flow = flip f.flow;
  no_more = omega (arith, f.no_more);
  same = record {
    members = λ r np nq. f.same.members r nq np;
    handlers = λ r np nq. f.same.handlers r nq np;
  };
}

module _ {W : Type 0} (c : Calls W) (supply : W → ℕ) (finite : IsFinite c.kernel supply) (t : ℕ)
    (p q : Ptr) (a b : ℕ) (fuel events : ℕ) where
  abbrev asked : Bool → Ptr → Net W → Outcome (Bool × Net W)
  asked on r n = operand c.epoll_ctl c.close c.shutdown c.kernel on fuel r n

  asked-Forwarded :
      (on : Bool) (n : Net W) {order : List Ptr}
      → Flow n.loop t order p q a b
      → burden supply p q n < fuel
      → Forwarded supply n t order p q a b (asked on p n)
  unfolding operand
  asked-Forwarded true n v enough =
      forward_from_other-Forwarded c supply finite t p q a b fuel n v (omega (arith, enough))
  asked-Forwarded false n {order} v enough = record {
    result = false;
    after = n;
    rest = order;
    returns = refl;
    flow = v;
    no_more = omega arith;
    same = SameElse-refl n.loop order p q;
  }

module _ {W : Type 0} (c : Calls W) (supply : W → ℕ) (finite : IsFinite c.kernel supply) (t : ℕ)
    (p q : Ptr) (a b : ℕ) (fuel events : ℕ) (n : Net W) (order : List Ptr)
    (v : Flow n.loop t order p q a b) where
  process-error :
      has_bits events epoll_err ≡ true
      → Torn n.loop t order p q
          (suc a)
          (suc b)
          (terminate c.epoll_ctl c.close c.shutdown c.kernel p n.loop)
      → Forwarded supply n t order p q a b (
          process c.epoll_ctl c.close c.shutdown c.kernel c.getsockopt c.left_first fuel events p q
            n)
  unfolding process
  process-error on s = record {
    result = false;
    after = record { loop = s.after; kernel = n.kernel };
    rest = s.rest;
    returns =
        sym (if_true _ _ on)
        ∙ rw
            (
              deref-ok p n.loop v.tunnel.left.is_set v.tunnel.left.alive,
              sock_error-ok c.getsockopt c.tells (n.loop.handlers p).fd,
              s.returns,
            )
            refl;
    flow = Torn-Flow s v.there.sound v.back.sound;
    no_more = omega (arith, Torn-burden s supply n.kernel);
    same = s.same;
  }

  process-both :
      has_bits events epoll_err ≡ false
      → c.left_first ≡ true
      → (f : Forwarded supply n t order p q a b
          (asked c supply finite t p q a b fuel events (has_bits events epoll_out) p n))
      → Forwarded supply f.after t f.rest p q a b
          (asked c supply finite t q p b a fuel events (has_bits events epoll_in) q f.after)
      → Forwarded supply n t order p q a b (
          process c.epoll_ctl c.close c.shutdown c.kernel c.getsockopt c.left_first fuel events p q
            n)
  unfolding process
  process-both off first f g = record {
    result = f.result || g.result;
    after = g.after;
    rest = g.rest;
    returns = sym (if_false _ _ off) ∙ sym (if_true _ _ first) ∙ rw (f.returns, g.returns) refl;
    flow = g.flow;
    no_more = omega (arith, f.no_more, g.no_more);
    same = SameElse-trans f.same g.same;
  }

  process-swapped :
      has_bits events epoll_err ≡ false
      → c.left_first ≡ false
      → (g : Forwarded supply n t order p q a b
          (asked c supply finite t q p b a fuel events (has_bits events epoll_in) q n))
      → Forwarded supply g.after t g.rest p q a b
          (asked c supply finite t p q a b fuel events (has_bits events epoll_out) p g.after)
      → Forwarded supply n t order p q a b (
          process c.epoll_ctl c.close c.shutdown c.kernel c.getsockopt c.left_first fuel events p q
            n)
  unfolding process
  process-swapped off second g f = record {
    result = f.result || g.result;
    after = f.after;
    rest = f.rest;
    returns = sym (if_false _ _ off) ∙ sym (if_false _ _ second) ∙ rw (g.returns, f.returns) refl;
    flow = f.flow;
    no_more = omega (arith, f.no_more, g.no_more);
    same = SameElse-trans g.same f.same;
  }

  -- `Process` runs through all its checks and leaves a tunnel with sound pipes.
  pub process-Forwarded :
      burden supply p q n < fuel
      → Forwarded supply n t order p q a b (
          process c.epoll_ctl c.close c.shutdown c.kernel c.getsockopt c.left_first fuel events p q
            n)
  process-Forwarded enough = elim (Bool-cases (has_bits events epoll_err)) [
    | inl on ↦ process-error on (
        terminate-Torn c.epoll_ctl c.ctl_documented c.close c.closes c.shutdown c.kernel
          c.splice_documented.closes n.loop t p q a b v.tunnel)
    | inr off ↦ elim (Bool-cases c.left_first) [
      | inl first ↦
          let f =
            asked-Forwarded c supply finite t p q a b fuel events (has_bits events epoll_out) n v
              enough in
          let g =
            asked-Forwarded c supply finite t q p b a fuel events (has_bits events epoll_in) f.after
              (flip f.flow) (omega (arith, enough, f.no_more)) in
          process-both off first f (flip-Forwarded g)
      | inr second ↦
          let g = flip-Forwarded (
            asked-Forwarded c supply finite t q p b a fuel events (has_bits events epoll_in) n
              (flip v) (omega (arith, enough))) in
          let f =
            asked-Forwarded c supply finite t p q a b fuel events (has_bits events epoll_out)
              g.after g.flow (omega (arith, enough, g.no_more)) in
          process-swapped off second g f
    ]
  ]
