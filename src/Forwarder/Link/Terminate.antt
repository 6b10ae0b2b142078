-- ===== src/Forwarder/Link/Terminate.antt =====
-- `Terminate` of src/forwarder.cc, on the two links of a tunnel.
use hcproxy.Common.{
  ℕ, suc, ◌≡◌, ◌≢◌, ap, ◌∙◌, Bool, true, false, List, arith, Outcome, ok, ◌∉◌, Option,
}
use hcproxy.NodeList.{Ptr, null}
use hcproxy.Epoll.{Ctl}
use hcproxy.Epoll.{IsDocumented}
use hcproxy.EventLoop.{EventLoop}
use hcproxy.EventLoop.References.{deref-ok}
use hcproxy.Forwarder.{Kernel}
use hcproxy.Forwarder.Link.{Link, is_open, close_link, terminate}
use hcproxy.Forwarder.Link.Sides.{num, Tunnel, swap, SameElse}
use hcproxy.Forwarder.Link.Close.{close_link-Closed}

-- What is left of a tunnel that was torn down: both links are closed, out of the loop and alive, with
-- the references of their holders only.
pub record Torn (w : EventLoop Link) (t : ℕ) (order : List Ptr) (p q : Ptr) (a b : ℕ)
    (r : Outcome (EventLoop Link)) : Type 0 where
  pub after : EventLoop Link
  pub rest : List Ptr
  pub returns : r ≡ ok after
  pub tunnel : Tunnel after t rest p q a b
  pub gone : (p ∉ rest) × (q ∉ rest)
  pub outs :
      ((after.handlers p).derived.out ≡ (w.handlers p).derived.out)
      × ((after.handlers q).derived.out ≡ (w.handlers q).derived.out)
  pub refs : ((after.handlers p).ref_count ≡ a) × ((after.handlers q).ref_count ≡ b)
  pub same : SameElse w after order rest p q

module _ (w : EventLoop Link) (t : ℕ) (p q : Ptr) (a b : ℕ) where
  torn :
      (u : EventLoop Link) (order rest : List Ptr) (r : Outcome (EventLoop Link))
      → r ≡ ok u
      → Tunnel u t rest p q a b
      → is_open (u.handlers p).derived ≡ false
      → is_open (u.handlers q).derived ≡ false
      → ((u.handlers p).derived.out ≡ (w.handlers p).derived.out)
        × ((u.handlers q).derived.out ≡ (w.handlers q).derived.out)
      → SameElse w u order rest p q
      → Torn w t order p q a b r
  torn u order rest r e v cp cq outs same = record {
    outs = outs;
    after = u;
    rest = rest;
    returns = e;
    tunnel = v;
    gone = (v.left.listed ∙ cp, v.right.listed ∙ cq);
    refs = (
      omega (arith, v.left.counted, ap num cp, ap num cq),
      omega (arith, v.right.counted, ap num cp, ap num cq),
    );
    same = same;
  }

module _ {W : Type 0} (epoll_ctl : Ctl) (documented : IsDocumented epoll_ctl) (close : ℕ → Bool)
    (closes : (fd : ℕ) → close fd ≡ true) (shutdown : ℕ → ℕ → Option ℕ) (k : Kernel W)
    (pipe_closes : k.close ≡ true) (w : EventLoop Link) (t : ℕ) (p q : Ptr) (a b : ℕ) where
  terminate-returns :
      (u₁ u₂ : EventLoop Link)
      → close_link epoll_ctl close shutdown k p w ≡ ok u₁
      → p ≢ null
      → (u₁.handlers p).freed ≡ false
      → (u₁.handlers p).derived.other ≡ q
      → close_link epoll_ctl close shutdown k q u₁ ≡ ok u₂
      → terminate epoll_ctl close shutdown k p w ≡ ok u₂
  unfolding terminate
  terminate-returns u₁ u₂ first h f o second = rw (first, deref-ok p u₁ h f, o) second

  -- `Terminate` of either link of a tunnel, of which the caller holds both, runs through all its
  -- checks and closes both links; everything else in the loop is spared, and no link is deleted.
  pub terminate-Torn :
      {order : List Ptr}
      → Tunnel w t order p q (suc a) (suc b)
      → Torn w t order p q (suc a) (suc b) (terminate epoll_ctl close shutdown k p w)
  terminate-Torn {order} v =
      let c =
        close_link-Closed epoll_ctl documented close closes shutdown k pipe_closes w t p q a b v in
      let d =
        close_link-Closed epoll_ctl documented close closes shutdown k pipe_closes c.after t q p b a
          (swap c.tunnel) in
      torn w t p q (suc a) (suc b) d.after order d.rest _
        (terminate-returns c.after d.after c.returns v.left.is_set c.tunnel.left.alive
          c.tunnel.left.joined d.returns)
        (swap d.tunnel) (ap is_open d.spared ∙ c.shut) d.shut
        (
          ap (λ (x : Link). x.out) d.spared ∙ c.out_kept,
          d.out_kept ∙ ap (λ (x : Link). x.out) c.spared,
        )
        (record {
          members = λ r np nq. d.same.members r nq np ∙ c.same.members r np nq;
          handlers = λ r np nq. d.same.handlers r nq np ∙ c.same.handlers r np nq;
        })
