-- ===== src/Forwarder/Link/Hold.antt =====
-- The reference that `OnEvent` and `OnTimeout` of src/forwarder.cc hold of the other link.
use hcproxy.Common.{ℕ, suc, ◌+◌, ◌-◌, ◌<◌, ◌≡◌, refl, ap, sym, ◌∙◌, true, false, List, arith, ok}
use hcproxy.NodeList.{Ptr, update_self}
use hcproxy.EventLoop.{Handler, EventLoop, set_handler}
use hcproxy.EventLoop.Invariant.{Inv-set_live}
use hcproxy.Forwarder.{Kernel}
use hcproxy.Forwarder.Link.{Link, is_open, destroy}
use hcproxy.Forwarder.Link.Sides.{num, Tunnel}

-- One reference more of the link `q`, which is open.
abbrev pub with_ref : Ptr → EventLoop Link → EventLoop Link
with_ref q w = set_handler q (record (w.handlers q) { ref_count = (w.handlers q).ref_count + 1 }) w

module _ (w : EventLoop Link) (t : ℕ) (order : List Ptr) (p q : Ptr) (a b : ℕ)
    (v : Tunnel w t order p q a b) where
  pub with_ref-at :
      (with_ref q w).handlers q ≡ record (w.handlers q) { ref_count = (w.handlers q).ref_count + 1 }
  with_ref-at = update_self w.handlers q _

  pub with_ref-other : (with_ref q w).handlers p ≡ w.handlers p
  with_ref-other = let ne = v.apart in ground arith

  pub with_ref-Tunnel : Tunnel (with_ref q w) t order p q a (b + 1)
  with_ref-Tunnel =
      let open_p = ap (λ (h : Handler Link). is_open h.derived) with_ref-other in
      let open_q = ap (λ (h : Handler Link). is_open h.derived) with_ref-at in
      record {
        inv = Inv-set_live w q _ v.inv refl refl refl refl (omega arith);
        apart = v.apart;
        left = record {
          is_set = v.left.is_set;
          alive = ap (λ (h : Handler Link). h.freed) with_ref-other ∙ v.left.alive;
          joined = ap (λ (h : Handler Link). h.derived.other) with_ref-other ∙ v.left.joined;
          listed = v.left.listed ∙ sym open_p;
          descriptor =
              ap (λ (h : Handler Link). h.derived.fd_open) with_ref-other
              ∙ v.left.descriptor
              ∙ sym open_p;
          counted = omega (
            arith,
            ap (λ (h : Handler Link). h.ref_count) with_ref-other,
            v.left.counted,
            ap num open_p,
            ap num open_q,
          );
        };
        right = record {
          is_set = v.right.is_set;
          alive = ap (λ (h : Handler Link). h.freed) with_ref-at ∙ v.right.alive;
          joined = ap (λ (h : Handler Link). h.derived.other) with_ref-at ∙ v.right.joined;
          listed = v.right.listed ∙ sym open_q;
          descriptor =
              ap (λ (h : Handler Link). h.derived.fd_open) with_ref-at
              ∙ v.right.descriptor
              ∙ sym open_q;
          counted = omega (
            arith,
            ap (λ (h : Handler Link). h.ref_count) with_ref-at,
            v.right.counted,
            ap num open_p,
            ap num open_q,
          );
        };
      }

-- One reference less of the link `q`, which is not the last one.
abbrev pub less_ref : Ptr → EventLoop Link → EventLoop Link
less_ref q w = set_handler q (record (w.handlers q) { ref_count = (w.handlers q).ref_count - 1 }) w

module _ (w : EventLoop Link) (t : ℕ) (order : List Ptr) (p q : Ptr) (a b : ℕ)
    (v : Tunnel w t order p q a (suc b)) where
  pub less_ref-at :
      (less_ref q w).handlers q ≡ record (w.handlers q) { ref_count = (w.handlers q).ref_count - 1 }
  less_ref-at = update_self w.handlers q _

  pub less_ref-other : (less_ref q w).handlers p ≡ w.handlers p
  less_ref-other = let ne = v.apart in ground arith

  pub less_ref-Tunnel : 1 < (w.handlers q).ref_count → Tunnel (less_ref q w) t order p q a b
  less_ref-Tunnel more =
      let open_p = ap (λ (h : Handler Link). is_open h.derived) less_ref-other in
      let open_q = ap (λ (h : Handler Link). is_open h.derived) less_ref-at in
      record {
        inv = Inv-set_live w q _ v.inv refl refl refl refl (omega arith);
        apart = v.apart;
        left = record {
          is_set = v.left.is_set;
          alive = ap (λ (h : Handler Link). h.freed) less_ref-other ∙ v.left.alive;
          joined = ap (λ (h : Handler Link). h.derived.other) less_ref-other ∙ v.left.joined;
          listed = v.left.listed ∙ sym open_p;
          descriptor =
              ap (λ (h : Handler Link). h.derived.fd_open) less_ref-other
              ∙ v.left.descriptor
              ∙ sym open_p;
          counted = omega (
            arith,
            ap (λ (h : Handler Link). h.ref_count) less_ref-other,
            v.left.counted,
            ap num open_p,
            ap num open_q,
          );
        };
        right = record {
          is_set = v.right.is_set;
          alive = ap (λ (h : Handler Link). h.freed) less_ref-at ∙ v.right.alive;
          joined = ap (λ (h : Handler Link). h.derived.other) less_ref-at ∙ v.right.joined;
          listed = v.right.listed ∙ sym open_q;
          descriptor =
              ap (λ (h : Handler Link). h.derived.fd_open) less_ref-at
              ∙ v.right.descriptor
              ∙ sym open_q;
          counted = omega (
            arith,
            ap (λ (h : Handler Link). h.ref_count) less_ref-at,
            v.right.counted,
            ap num open_p,
            ap num open_q,
          );
        };
      }

module _ {W : Type 0} (k : Kernel W) (pipe_closes : k.close ≡ true) where
  pub destroy-closed :
      (x : Link)
      → is_open x ≡ false
      → destroy k x ≡ ok (record x { out = record x.out { read_open = false; write_open = false } })
  unfolding destroy
  destroy-closed x h = ground (arith, pipe_closes)
