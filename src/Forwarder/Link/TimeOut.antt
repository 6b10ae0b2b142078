-- ===== src/Forwarder/Link/TimeOut.antt =====
-- `OnTimeout` of `LinkEventHandler` in src/forwarder.cc.
use hcproxy.Common.{
  ℕ, suc, ◌≡◌, ap, sym, ◌∙◌, Bool, true, false, List, arith, Outcome, ok, ◌∉◌, Option,
}
use hcproxy.NodeList.{Ptr, update_self}
use hcproxy.Epoll.{Ctl, IsDocumented}
use hcproxy.EventLoop.{Handler, EventLoop, dec_ref}
use hcproxy.EventLoop.References.{deref-ok, inc_ref-ok, dec_ref-last}
use hcproxy.EventLoop.Invariant.{Inv, Inv-set_away}
use hcproxy.Forwarder.{Kernel}
use hcproxy.Forwarder.Link.{Link, destroy, terminate, link_on_timeout}
use hcproxy.Forwarder.Link.Sides.{Tunnel}
use hcproxy.Forwarder.Link.Hold.{with_ref, with_ref-Tunnel, destroy-closed}
use hcproxy.Forwarder.Link.Terminate.{terminate-Torn}

-- What a timeout of `p` comes to.
pub record TimedOut (t : ℕ) (p q : Ptr) (held : ℕ) (r : Outcome (EventLoop Link)) : Type 0 where
  pub after : EventLoop Link
  pub rest : List Ptr
  pub returns : r ≡ ok after
  pub inv : Inv after t rest
  pub gone : (p ∉ rest) × (q ∉ rest)
  pub kept : ((after.handlers p).freed ≡ false) × ((after.handlers p).ref_count ≡ held)
  pub deleted : (after.handlers q).freed ≡ true

module _ {W : Type 0} (epoll_ctl : Ctl) (documented : IsDocumented epoll_ctl) (close : ℕ → Bool)
    (closes : (fd : ℕ) → close fd ≡ true) (shutdown : ℕ → ℕ → Option ℕ) (k : Kernel W)
    (pipe_closes : k.close ≡ true) where
  module _ (w : EventLoop Link) (t : ℕ) (order : List Ptr) (p q : Ptr) (a : ℕ)
      (v : Tunnel w t order p q (suc a) 0) where
    link_on_timeout-returns :
        (u z : EventLoop Link)
        → terminate epoll_ctl close shutdown k p (with_ref q w) ≡ ok u
        → (u.handlers p).freed ≡ false
        → (u.handlers p).derived.other ≡ q
        → dec_ref (destroy k) q u ≡ ok z
        → link_on_timeout epoll_ctl close shutdown k p w ≡ ok z
    unfolding link_on_timeout
    link_on_timeout-returns u z done f o last =
        rw
          (
            deref-ok p w v.left.is_set v.left.alive,
            v.left.joined,
            inc_ref-ok q w v.right.is_set v.right.alive,
            done,
            deref-ok p u v.left.is_set f,
            o,
          )
          last

    -- A timeout of a link that the loop holds, and whose other link nothing else holds, runs through
    -- all its checks: both links leave the loop, this one keeps the reference of its holder, and the
    -- other one is deleted.
    pub link_on_timeout-TimedOut :
        TimedOut t p q (suc a) (link_on_timeout epoll_ctl close shutdown k p w)
    link_on_timeout-TimedOut =
        let x = with_ref-Tunnel w t order p q (suc a) 0 v in
        let c =
          terminate-Torn epoll_ctl documented close closes shutdown k pipe_closes (with_ref q w) t p
            q a 0 x in
        let off = c.tunnel.inv.away q c.gone.1 in
        let shut_q = sym c.tunnel.right.listed ∙ c.gone.1 in
        let last =
          dec_ref-last (destroy k) q c.after _ v.right.is_set c.tunnel.right.alive c.refs.1 off
            (destroy-closed k pipe_closes (c.after.handlers q).derived shut_q) in
        let apart = v.apart in
        record {
          after = _;
          rest = c.rest;
          returns =
              link_on_timeout-returns c.after _ c.returns c.tunnel.left.alive c.tunnel.left.joined
                last;
          inv = Inv-set_away c.after q _ c.tunnel.inv c.gone.1 off;
          gone = c.gone;
          kept = (ground (arith, c.tunnel.left.alive), ground (arith, c.refs));
          deleted = ap (λ (h : Handler Link). h.freed) (update_self c.after.handlers q _);
        }
