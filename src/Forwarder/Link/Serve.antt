-- ===== src/Forwarder/Link/Serve.antt =====
-- `OnEvent` of `LinkEventHandler` in src/forwarder.cc, as a whole.
use hcproxy.Common.{
  ℕ, suc, ◌≤◌, ◌<◌, ◌≡◌, refl, ap, Bool, true, false, List, arith, Outcome, ok, ◌>>=◌,
  if◌then◌else◌,
}
use hcproxy.NodeList.{Ptr}
use hcproxy.EventLoop.{Handler}
use hcproxy.EventLoop.References.{deref-ok, inc_ref-ok}
use hcproxy.EventLoop.Invariant.{Inv-later}
use hcproxy.Forwarder.Link.{Link, Net, process, refresh_open, link_on_event}
use hcproxy.Forwarder.Link.Sides.{Tunnel, SameElse}
use hcproxy.Forwarder.Link.Hold.{with_ref, with_ref-at, with_ref-other, with_ref-Tunnel}
use hcproxy.Forwarder.Link.Flow.{Calls, IsFinite, Pipe, Flow, burden, SameElse-trans, SameElse-refl}
use hcproxy.Forwarder.Link.OnEvent.{flip, process-Forwarded}
use hcproxy.Forwarder.Link.Renew.{refresh_open-Renewed}
use hcproxy.Forwarder.Link.Release.{Handled, release, release-Handled}

-- `Process` and the two `Refresh` after it, where it transferred something.
record Renewals {W : Type 0} (n : Net W) (now : ℕ) (order : List Ptr) (p q : Ptr) (a b : ℕ)
    (r : Outcome (Net W)) : Type 0 where
  after : Net W
  rest : List Ptr
  returns : r ≡ ok after
  flow : Flow after.loop now rest p q a b
  same : SameElse n.loop after.loop order rest p q

module _ {W : Type 0} (c : Calls W) (supply : W → ℕ) (finite : IsFinite c.kernel supply) (fuel : ℕ)
    (clock : ℕ → ℕ) (p q : Ptr) (events : ℕ) (t : ℕ) (first : t ≤ clock 0)
    (second : clock 0 ≤ clock 1) where
  renew : Bool → Net W → Outcome (Net W)
  renew r n =
      if r
      then (refresh_open c.epoll_ctl c.close c.shutdown c.kernel (clock 0) p n
          >>= refresh_open c.epoll_ctl c.close c.shutdown c.kernel (clock 1) q)
      else ok n

  renew-Renewals :
      (r : Bool) (n : Net W) {order : List Ptr} {a b : ℕ}
      → Flow n.loop t order p q a b
      → Renewals n (clock 1) order p q a b (renew r n)
  unfolding renew
  renew-Renewals true n {order} {a} {b} v =
      let x = refresh_open-Renewed c n t (clock 0) order p q a b first v in
      let y =
        refresh_open-Renewed c (record n { loop = x.after }) (clock 0) (clock 1) x.rest q p b a
          second (flip x.flow) in
      record {
        after = record n { loop = y.after };
        rest = y.rest;
        returns = rw (x.returns, y.returns) refl;
        flow = flip y.flow;
        same = SameElse-trans x.same (record {
          members = λ r np nq. y.same.members r nq np;
          handlers = λ r np nq. y.same.handlers r nq np;
        });
      }
  renew-Renewals false n {order} v = record {
    after = n;
    rest = order;
    returns = refl;
    flow = record {
      tunnel = record {
        inv = Inv-later (omega (arith, first, second)) v.tunnel.inv;
        apart = v.tunnel.apart;
        left = v.tunnel.left;
        right = v.tunnel.right;
      };
      there = v.there;
      back = v.back;
    };
    same = SameElse-refl n.loop order p q;
  }

  module _ (n : Net W) (order : List Ptr) (a : ℕ) (tunnel : Tunnel n.loop t order p q (suc a) 0)
      (there : Pipe (n.loop.handlers p).derived (n.loop.handlers q).derived)
      (back : Pipe (n.loop.handlers q).derived (n.loop.handlers p).derived) where
    held : Net W
    held = record { loop = with_ref q n.loop; kernel = n.kernel }

    link_p : (held.loop.handlers p).derived ≡ (n.loop.handlers p).derived
    unfolding held
    link_p =
        ap (λ (h : Handler Link). h.derived) (with_ref-other n.loop t order p q (suc a) 0 tunnel)

    link_q : (held.loop.handlers q).derived ≡ (n.loop.handlers q).derived
    unfolding held
    link_q = ap (λ (h : Handler Link). h.derived) (with_ref-at n.loop t order p q (suc a) 0 tunnel)

    held-Flow : Flow held.loop t order p q a 0
    unfolding held
    held-Flow = record {
      tunnel = with_ref-Tunnel n.loop t order p q (suc a) 0 tunnel;
      there = rw (link_p, link_q) there;
      back = rw (link_p, link_q) back;
    }

    held-burden : burden supply p q held ≡ burden supply p q n
    unfolding held
    held-burden = rw (link_p, link_q) refl

    held-SameElse : SameElse n.loop held.loop order order p q
    unfolding held
    held-SameElse = record { members = λ r np nq. refl; handlers = λ r np nq. ground arith }

    on_event-returns :
        (r : Bool) (u v z : Net W)
        → process c.epoll_ctl c.close c.shutdown c.kernel c.getsockopt c.left_first fuel events p q
            held
          ≡ ok (r, u)
        → renew r u ≡ ok v
        → (v.loop.handlers p).freed ≡ false
        → (v.loop.handlers p).derived.other ≡ q
        → release c q v ≡ ok z
        → link_on_event c.epoll_ctl c.close c.shutdown c.kernel c.getsockopt c.left_first fuel clock
            p events n
          ≡ ok z
    unfolding link_on_event held renew release
    on_event-returns r u v z done renewed alive joined last =
        rw
          (
            deref-ok p n.loop tunnel.left.is_set tunnel.left.alive,
            tunnel.left.joined,
            inc_ref-ok q n.loop tunnel.right.is_set tunnel.right.alive,
            done,
            renewed,
            deref-ok p v.loop tunnel.left.is_set alive,
            joined,
          )
          last

    -- OnEvent of a link that the loop holds, and whose other link nothing else holds, ends, given
    -- fuel for what can still happen and a clock that does not run back, whichever operand of the
    -- `|` in it is evaluated first. It passes all checks; then the tunnel goes on with sound pipes,
    -- or both links have left the loop, the other link is deleted and this one keeps the references
    -- of its holders. Nothing else in the loop is changed.
    pub link_on_event-Handled :
        burden supply p q n < fuel
        → Handled n.loop (clock 1) order p q (suc a) (
            link_on_event c.epoll_ctl c.close c.shutdown c.kernel c.getsockopt c.left_first fuel
              clock p events n)
    link_on_event-Handled enough =
        let f =
          process-Forwarded c supply finite t p q a 0 fuel events held order held-Flow
            (omega (arith, enough, held-burden)) in
        let r = renew-Renewals f.result f.after f.flow in
        let z = release-Handled c r.after (clock 1) r.rest p q a r.flow in
        record {
          after = z.after;
          rest = z.rest;
          returns =
              on_event-returns f.result f.after r.after z.after f.returns r.returns
                r.flow.tunnel.left.alive r.flow.tunnel.left.joined z.returns;
          served = z.served;
          same =
              SameElse-trans held-SameElse (SameElse-trans f.same (SameElse-trans r.same z.same));
        }
