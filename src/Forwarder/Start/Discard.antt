-- ===== src/Forwarder/Start/Discard.antt =====
-- The links of a tunnel for which there is no pipe (`New` in src/forwarder.cc).
use hcproxy.Common.{
  ℕ, ◌≡◌, ◌≢◌, refl, ap, ◌∙◌, Bool, true, false, List, arith, Outcome, ok, ◌>>=◌, ◌∉◌, pass,
}
use hcproxy.NodeList.{Ptr, null, update_self}
use hcproxy.EventLoop.{Handler, EventLoop, set_handler, delete}
use hcproxy.EventLoop.References.{deref-ok}
use hcproxy.EventLoop.Invariant.{Inv, Inv-set_away}
use hcproxy.Forwarder.{Buffer, Kernel}
use hcproxy.Forwarder.Link.{Link}
use hcproxy.Forwarder.Link.Hold.{destroy-closed}
use hcproxy.Forwarder.Start.{made, discard}

-- What a link is when it has been deleted.
abbrev deleted : ℕ → Buffer → Ptr → Handler Link
deleted fd out other = record (made fd out other) {
  freed = true;
  derived = record {
    out = record out { read_open = false; write_open = false };
    readable = false;
    writable = false;
    other = other;
    fd_open = false;
  };
}

-- Both links are deleted, and everything else is as before.
pub record Discarded (w : EventLoop Link) (t : ℕ) (order : List Ptr) (p q : Ptr)
    (r : Outcome (EventLoop Link)) : Type 0 where
  pub after : EventLoop Link
  pub returns : r ≡ ok after
  pub inv : Inv after t order
  pub gone : ((after.handlers p).freed ≡ true) × ((after.handlers q).freed ≡ true)
  pub others : (x : Ptr) → x ≢ p → x ≢ q → after.handlers x ≡ w.handlers x
  pub calls : after.epoll ≡ w.epoll

module _ {W : Type 0} (close : ℕ → Bool) (closes : (fd : ℕ) → close fd ≡ true) (k : Kernel W)
    (pipe_closes : k.close ≡ true) where
  discard-ok :
      (p : Ptr) (w : EventLoop Link) (fd : ℕ) (b : Buffer) (other : Ptr)
      → p ≢ null
      → w.handlers p ≡ made fd b other
      → discard close k p w ≡ ok (set_handler p (deleted fd b other) w)
  unfolding discard delete
  discard-ok p w fd b other h e =
      rw
        (
          deref-ok p w h (ap (λ (x : Handler Link). x.freed) e),
          e,
          pass (closes fd),
          destroy-closed k pipe_closes
              (record {
                out = b;
                readable = false;
                writable = false;
                other = other;
                fd_open = false;
              })
              refl,
        )
        refl

  module _ (w : EventLoop Link) (t : ℕ) (order : List Ptr) (p q : Ptr) (fd_p fd_q : ℕ)
      (b d : Buffer) (x y : Ptr) (v : Inv w t order) (set_p : p ≢ null) (set_q : q ≢ null)
      (apart : p ≢ q) (out_p : p ∉ order) (out_q : q ∉ order) (at_p : w.handlers p ≡ made fd_p b x)
      (at_q : w.handlers q ≡ made fd_q d y) where
    first : EventLoop Link
    first = set_handler p (deleted fd_p b x) w

    first_at_q : first.handlers q ≡ made fd_q d y
    unfolding first
    first_at_q = ground (arith, apart) ∙ at_q

    both : EventLoop Link
    unfolding first
    both = set_handler q (deleted fd_q d y) first

    both-p : both.handlers p ≡ deleted fd_p b x
    unfolding both first
    both-p = ground (arith, apart) ∙ update_self w.handlers p _

    -- Both links are deleted, with whatever pipes they have, where nothing refers to them.
    pub discard-Discarded : Discarded w t order p q (discard close k p w >>= discard close k q)
    unfolding first both
    discard-Discarded = record {
      after = both;
      returns =
          rw (discard-ok p w fd_p b x set_p at_p, discard-ok q first fd_q d y set_q first_at_q)
            refl;
      inv = Inv-set_away first q _ (Inv-set_away w p _ v out_p refl) out_q refl;
      gone = (
        ap (λ (h : Handler Link). h.freed) both-p,
        ap (λ (h : Handler Link). h.freed) (update_self first.handlers q (deleted fd_q d y)),
      );
      others = λ r np nq. ground arith;
      calls = refl;
    }
