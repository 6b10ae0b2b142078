-- ===== src/Forwarder/Link/Release.antt =====
-- The end of `OnEvent` in src/forwarder.cc: the reference of the other link is given back.
use hcproxy.Common.{
  ℕ, zero, suc, ◌≤◌, ◌<◌, ◌≡◌, ◌≢◌, refl, ap, sym, ◌∙◌, Bool, true, false, List, arith, Outcome, ok,
  ◌>>=◌, inl, inr, ◌∉◌, ◌⊎◌,
}
use hcproxy.NodeList.{Ptr, update_self}
use hcproxy.EventLoop.{Handler, EventLoop, set_handler, dec_ref}
use hcproxy.EventLoop.References.{dec_ref-keep, dec_ref-last}
use hcproxy.EventLoop.Invariant.{Inv, Inv-set_away}
use hcproxy.Forwarder.Link.{Link, Net, is_open, destroy}
use hcproxy.Forwarder.Link.Sides.{num, Tunnel, SameElse}
use hcproxy.Forwarder.Link.Hold.{
  less_ref, less_ref-at, less_ref-other, less_ref-Tunnel, destroy-closed,
}
use hcproxy.Forwarder.Link.Flow.{Calls, Pipe, Flow}

-- The tunnel goes on, or it has ended: both links have left the loop, `p` keeps the references of its
-- holders, and `q` is deleted. Where it goes on, `q` is still referred to.
pub data Served (w : EventLoop Link) (now : ℕ) (order : List Ptr) (p q : Ptr) (held : ℕ)
    : Type 0 where
  lasts :
      Tunnel w now order p q held 0
      → 0 < (w.handlers q).ref_count
      → Pipe (w.handlers p).derived (w.handlers q).derived
      → Pipe (w.handlers q).derived (w.handlers p).derived
      → Served w now order p q held
  ended :
      Inv w now order
      → p ∉ order
      → q ∉ order
      → (w.handlers p).freed ≡ false
      → is_open (w.handlers p).derived ≡ false
      → (w.handlers p).ref_count ≡ held
      → (w.handlers q).freed ≡ true
      → Served w now order p q held

num-zero : (x : Bool) → num x ≡ 0 → x ≡ false
num-zero true h = absurd (omega (arith, h))
num-zero false h = refl

-- The link `q` deleted, with its pipe closed.
abbrev pub without_link : Ptr → EventLoop Link → EventLoop Link
without_link q w =
    set_handler q
      (record (w.handlers q) {
        ref_count = 0;
        freed = true;
        derived = record (w.handlers q).derived {
          out = record (w.handlers q).derived.out { read_open = false; write_open = false };
        };
      })
      w

pub without_link-other :
    (p q : Ptr) (w : EventLoop Link) → p ≢ q → (without_link q w).handlers p ≡ w.handlers p
without_link-other p q w ne = ground arith

-- What handling an event of `p` comes to.
pub record Handled {W : Type 0} (w : EventLoop Link) (now : ℕ) (order : List Ptr) (p q : Ptr)
    (held : ℕ) (r : Outcome (Net W)) : Type 0 where
  pub after : Net W
  pub rest : List Ptr
  pub returns : r ≡ ok after
  pub served : Served after.loop now rest p q held
  pub same : SameElse w after.loop order rest p q

module _ {W : Type 0} (c : Calls W) where
  -- the reference is given back
  unfoldable pub release : Ptr → Net W → Outcome (Net W)
  release p n = do loop ← dec_ref (destroy c.kernel) p n.loop; ok (record n { loop = loop })

  module _ (n : Net W) (now : ℕ) (order : List Ptr) (p q : Ptr) (a : ℕ)
      (v : Flow n.loop now order p q a 0) where
    released_some :
        1 < (n.loop.handlers q).ref_count → Handled n.loop now order p q (suc a) (release q n)
    unfolding release
    released_some more =
        let at =
          ap (λ (h : Handler Link). h.derived)
            (less_ref-at n.loop now order p q (suc a) 0 v.tunnel) in
        let other =
          ap (λ (h : Handler Link). h.derived)
            (less_ref-other n.loop now order p q (suc a) 0 v.tunnel) in
        record {
          after = record { loop = less_ref q n.loop; kernel = n.kernel };
          rest = order;
          returns =
              rw
                (dec_ref-keep (destroy c.kernel) q n.loop v.tunnel.right.is_set v.tunnel.right.alive
                  more)
                refl;
          served =
              lasts (less_ref-Tunnel n.loop now order p q (suc a) 0 v.tunnel more)
                (omega (
                  arith,
                  ap (λ (h : Handler Link). h.ref_count)
                      (less_ref-at n.loop now order p q (suc a) 0 v.tunnel),
                  more,
                ))
                (rw (other, at) v.there) (rw (at, other) v.back);
          same = record { members = λ r np nq. refl; handlers = λ r np nq. ground arith };
        }

    released_last :
        (n.loop.handlers q).ref_count ≡ 1 → Handled n.loop now order p q (suc a) (release q n)
    unfolding release
    released_last last =
        let shut_p : p ∉ order =
          v.tunnel.left.listed ∙ num-zero _ (omega (arith, last, v.tunnel.right.counted)) in
        let shut_q : q ∉ order =
          v.tunnel.right.listed ∙ num-zero _ (omega (arith, last, v.tunnel.right.counted)) in
        let off = v.tunnel.inv.away q shut_q in
        let apart = v.tunnel.apart in
        record {
          after = record { loop = without_link q n.loop; kernel = n.kernel };
          rest = order;
          returns =
              rw
                (dec_ref-last (destroy c.kernel) q n.loop _ v.tunnel.right.is_set
                  v.tunnel.right.alive last off
                  (destroy-closed c.kernel c.splice_documented.closes (n.loop.handlers q).derived
                    (sym v.tunnel.right.listed ∙ shut_q)))
                refl;
          served =
              ended (Inv-set_away n.loop q _ v.tunnel.inv shut_q off) shut_p shut_q
                (ground (arith, v.tunnel.left.alive))
                (ap (λ (h : Handler Link). is_open h.derived)
                    (without_link-other p q n.loop v.tunnel.apart)
                  ∙ sym v.tunnel.left.listed
                  ∙ shut_p)
                (ground (arith, v.tunnel.left.counted))
                (ap (λ (h : Handler Link). h.freed) (update_self n.loop.handlers q _));
          same = record { members = λ r np nq. refl; handlers = λ r np nq. ground arith };
        }

    -- The reference of `q` that `OnEvent` held is given back: the tunnel goes on, or it had ended and
    -- `q` is deleted.
    pub release-Handled : Handled n.loop now order p q (suc a) (release q n)
    release-Handled =
        elim (one_or_more (n.loop.handlers q).ref_count (omega (arith, v.tunnel.right.counted))) [
          | inl last ↦ released_last last
          | inr more ↦ released_some more
        ]
      where
        one_or_more : (r : ℕ) → 1 ≤ r → (r ≡ 1) ⊎ (1 < r)
        one_or_more zero h = elim h [ ]
        one_or_more (suc zero) h = inl refl
        one_or_more (suc (suc r)) h = inr (omega arith)
