-- ===== src/Forwarder/Link/Close.antt =====
-- `Close` of src/forwarder.cc, on one of the two links of a tunnel.
use hcproxy.Common.{
  ℕ, suc, ◌-◌, ◌<◌, ◌≡◌, ◌≢◌, refl, ap, sym, ◌∙◌, subst, Bool, true, false, List, ◌∷◌, ◌++◌, arith,
  Outcome, ok, Bool-cases, inl, inr, pass, has, ◌∉◌, mem-split, has-append, Option,
}
use hcproxy.NodeList.{Ptr, update_self}
use hcproxy.Epoll.{Ctl}
use hcproxy.Epoll.{IsDocumented}
use hcproxy.EventLoop.{Handler, EventLoop, set_handler, dec_ref, remove}
use hcproxy.EventLoop.References.{deref-ok, dec_ref-keep}
use hcproxy.EventLoop.Invariant.{Inv, Inv-set_live, Inv-set_away}
use hcproxy.EventLoop.Remove.{released_kept, remove-Inv, self_out}
use hcproxy.Forwarder.{Kernel}
use hcproxy.Forwarder.Link.Sides.{num, Side, Tunnel, Closed}
use hcproxy.Forwarder.Link.{Link, is_open, set_link, destroy, close_link}

shut_link : Link → Link
shut_link x = record x { readable = false; writable = false }

closed_link : Link → Link
closed_link x = record x { readable = false; writable = false; fd_open = false }

module _ {W : Type 0} (epoll_ctl : Ctl) (documented : IsDocumented epoll_ctl) (close : ℕ → Bool)
    (closes : (fd : ℕ) → close fd ≡ true) (shutdown : ℕ → ℕ → Option ℕ) (k : Kernel W)
    (pipe_closes : k.close ≡ true) where
  destroy-shut : (x : Link) → (y : Link) × (destroy k (shut_link x) ≡ ok y)
  unfolding destroy shut_link
  destroy-shut x = (
    record x {
      readable = false;
      writable = false;
      out = record x.out { read_open = false; write_open = false };
    },
    ground (arith, pipe_closes),
  )

  module _ (w : EventLoop Link) (t : ℕ) (p q : Ptr) (a b : ℕ) where
    -- the loop where `p` is marked as closed, and where `q` has lost its reference, too
    marked : EventLoop Link
    unfolding shut_link
    marked = set_link p (shut_link (w.handlers p).derived) w

    parted : EventLoop Link
    parted =
        set_handler q (record (marked.handlers q) { ref_count = (marked.handlers q).ref_count - 1 })
          marked

    module _ {order : List Ptr} (v : Tunnel w t order p q (suc a) (suc b))
        (o : is_open (w.handlers p).derived ≡ true) where
      marked_at :
          marked.handlers p ≡ record (w.handlers p) { derived = shut_link (w.handlers p).derived }
      unfolding marked
      marked_at = update_self w.handlers p _

      marked_other : (r : Ptr) → r ≢ p → marked.handlers r ≡ w.handlers r
      unfolding marked
      marked_other r ne = ground arith

      parted_at :
          parted.handlers p ≡ record (w.handlers p) { derived = shut_link (w.handlers p).derived }
      unfolding parted
      parted_at = ground (arith, marked_at, v.apart)

      parted_q :
          parted.handlers q ≡ record (w.handlers q) { ref_count = (w.handlers q).ref_count - 1 }
      unfolding parted
      parted_q =
          update_self marked.handlers q _
          ∙ ap (λ (h : Handler Link). record h { ref_count = h.ref_count - 1 })
              (marked_other q (λ e. v.apart (sym e)))

      parted_other : (r : Ptr) → r ≢ p → r ≢ q → parted.handlers r ≡ w.handlers r
      unfolding parted
      parted_other r np nq = ground (arith, marked_other r np)

      marked-Inv : Inv marked t order
      unfolding marked
      marked-Inv = Inv-set_live w p _ v.inv refl refl refl refl (omega (arith, v.left.counted))

      parted-Inv : Inv parted t order
      unfolding parted
      parted-Inv =
          Inv-set_live marked q _ marked-Inv refl refl refl refl
            (rw (marked_other q (λ e. v.apart (sym e))) (omega (arith, v.right.counted, ap num o)))

      has-without :
          (xs ys : List Ptr) (r : Ptr)
          → order ≡ xs ++ p ∷ ys
          → r ≢ p
          → has r (xs ++ ys) ≡ has r order
      has-without xs ys r s ne = rw s (ground (arith, has-append r xs ys, has-append r xs (p ∷ ys)))

      -- a loop that has `p` out of it, and nothing else changed
      module _ (u : EventLoop Link) (xs ys : List Ptr) (s : order ≡ xs ++ p ∷ ys)
          (inv : Inv u t (xs ++ ys)) (out : p ∉ xs ++ ys)
          (u_at : u.handlers p ≡ record (w.handlers p) {
            derived = closed_link (w.handlers p).derived;
            registered = false;
            ref_count = (w.handlers p).ref_count - 1;
          })
          (u_q : u.handlers q
            ≡ record (w.handlers q) { ref_count = (w.handlers q).ref_count - 1 }) where
        open_p : is_open (u.handlers p).derived ≡ false
        unfolding closed_link
        open_p = ap (λ (h : Handler Link). is_open h.derived) u_at

        out_p : (u.handlers p).derived.out ≡ (w.handlers p).derived.out
        unfolding closed_link
        out_p = ap (λ (h : Handler Link). h.derived.out) u_at

        open_q : is_open (u.handlers q).derived ≡ is_open (w.handlers q).derived
        open_q = ap (λ (h : Handler Link). is_open h.derived) u_q

        left-Side : Side u (xs ++ ys) p q (suc a)
        unfolding closed_link
        left-Side = record {
          is_set = v.left.is_set;
          alive = ap (λ (h : Handler Link). h.freed) u_at ∙ v.left.alive;
          joined = ap (λ (h : Handler Link). h.derived.other) u_at ∙ v.left.joined;
          listed = out ∙ sym open_p;
          descriptor = ap (λ (h : Handler Link). h.derived.fd_open) u_at ∙ sym open_p;
          counted = omega (
            arith,
            ap (λ (h : Handler Link). h.ref_count) u_at,
            v.left.counted,
            ap num open_p,
            ap num open_q,
            ap num o,
          );
        }

        right-Side : Side u (xs ++ ys) q p (suc b)
        right-Side = record {
          is_set = v.right.is_set;
          alive = ap (λ (h : Handler Link). h.freed) u_q ∙ v.right.alive;
          joined = ap (λ (h : Handler Link). h.derived.other) u_q ∙ v.right.joined;
          listed = has-without xs ys q s (λ e. v.apart (sym e)) ∙ v.right.listed ∙ sym open_q;
          descriptor =
              ap (λ (h : Handler Link). h.derived.fd_open) u_q ∙ v.right.descriptor ∙ sym open_q;
          counted = omega (
            arith,
            ap (λ (h : Handler Link). h.ref_count) u_q,
            v.right.counted,
            ap num open_p,
            ap num open_q,
            ap num o,
          );
        }

        Closed-with :
            (r : Outcome (EventLoop Link))
            → r ≡ ok u
            → ((x : Ptr) → x ≢ p → x ≢ q → u.handlers x ≡ w.handlers x)
            → Closed w t order p q (suc a) (suc b) r
        unfolding closed_link
        Closed-with r e others = record {
          after = u;
          rest = xs ++ ys;
          returns = e;
          tunnel = record { inv = inv; apart = v.apart; left = left-Side; right = right-Side };
          shut = open_p;
          gone = (out, ap (λ (h : Handler Link). h.derived.fd_open) u_at);
          unchanged = λ c. absurd (ground (arith, o, c));
          spared = ap (λ (h : Handler Link). h.derived) u_q;
          out_kept = out_p;
          same = record { members = λ x np nq. has-without xs ys x s np; handlers = others };
        }

      dec_ref-parted : dec_ref (destroy k) (w.handlers p).derived.other marked ≡ ok parted
      unfolding parted
      dec_ref-parted = rw v.left.joined (
          dec_ref-keep (destroy k) q marked v.right.is_set
            (rw (marked_other q (λ e. v.apart (sym e))) v.right.alive)
            (rw (marked_other q (λ e. v.apart (sym e))) (omega (arith, v.right.counted, ap num o))))

      -- the loop `u` after `Remove`, and the last step, which closes the descriptor
      module _ (u : EventLoop Link)
          (u_at : u.handlers p ≡ record (w.handlers p) {
            derived = shut_link (w.handlers p).derived;
            registered = false;
            ref_count = (w.handlers p).ref_count - 1;
          }) where
        ended : EventLoop Link
        ended = set_link p (record (u.handlers p).derived { fd_open = false }) u

        ended-at : ended.handlers p ≡ record (w.handlers p) {
          derived = closed_link (w.handlers p).derived;
          registered = false;
          ref_count = (w.handlers p).ref_count - 1;
        }
        unfolding ended shut_link closed_link
        ended-at =
            update_self u.handlers p _
            ∙ ap (λ (h : Handler Link). record h { derived = record h.derived { fd_open = false } })
                u_at

        ended-other : (r : Ptr) → r ≢ p → ended.handlers r ≡ u.handlers r
        unfolding ended
        ended-other r ne = ground arith

        ended-Inv : (rest : List Ptr) → Inv u t rest → p ∉ rest → Inv ended t rest
        unfolding ended
        ended-Inv rest inv out =
            Inv-set_away u p _ inv out (ap (λ (h : Handler Link). h.registered) u_at)

        is_descriptor : (u.handlers p).derived.fd_open ≡ true
        unfolding shut_link
        is_descriptor = ap (λ (h : Handler Link). h.derived.fd_open) u_at ∙ v.left.descriptor ∙ o

        close_link-returns :
            remove epoll_ctl (destroy k) p parted ≡ ok u
            → (u.handlers p).freed ≡ false
            → close_link epoll_ctl close shutdown k p w ≡ ok ended
        unfolding close_link marked ended
        close_link-returns done alive =
            rw
              (
                deref-ok p w v.left.is_set v.left.alive,
                o,
                dec_ref-parted,
                done,
                deref-ok p u v.left.is_set alive,
                is_descriptor,
                pass (closes (u.handlers p).fd),
              )
              refl

      close_link-open :
          Closed w t order p q (suc a) (suc b) (close_link epoll_ctl close shutdown k p w)
      close_link-open =
          let (xs, ys, s) = mem-split p order (v.left.listed ∙ o) in
          let inv = subst (Inv parted t) s parted-Inv in
          let (y, dy) = destroy-shut (w.handlers p).derived in
          let (u, done, after, refs, freed, at, others) =
            remove-Inv parted p epoll_ctl documented (destroy k) y
              (ap (λ (h : Handler Link). destroy k h.derived) parted_at ∙ dy) xs ys inv
              v.left.is_set in
          let two = two_refs in
          let u_at =
            at
            ∙ released_kept parted p y two
            ∙ ap
                (λ (h : Handler Link). record h { registered = false; ref_count = h.ref_count - 1 })
                parted_at in
          let out = self_out parted p xs ys w.expire inv in
          let u_q =
            ended-other u u_at q (λ e. v.apart (sym e))
            ∙ others q (λ e. v.apart (sym e))
            ∙ parted_q in
          let alive = ap (λ (h : Handler Link). h.freed) u_at ∙ v.left.alive in
          Closed-with (ended u u_at) xs ys s (ended-Inv u u_at (xs ++ ys) after out) out
            (ended-at u u_at) u_q _ (close_link-returns u u_at done alive)
            (λ x np nq. ended-other u u_at x np ∙ others x np ∙ parted_other x np nq)
        where
          two_refs : 1 < (parted.handlers p).ref_count
          two_refs = rw parted_at (omega (arith, v.left.counted, ap num o))

    -- Close of either link of a tunnel, of which the caller holds both, passes all checks. An open
    -- link is closed and leaves the loop, and its descriptor, which was open, is closed; nothing at
    -- all changes for a closed one. The other link and all else are spared, and neither link is
    -- deleted.
    pub close_link-Closed :
        {order : List Ptr}
        → Tunnel w t order p q (suc a) (suc b)
        → Closed w t order p q (suc a) (suc b) (close_link epoll_ctl close shutdown k p w)
    unfolding close_link
    close_link-Closed {order} v = elim (Bool-cases (is_open (w.handlers p).derived)) [
      | inl o ↦ close_link-open v o
      | inr c ↦ record {
        after = w;
        rest = order;
        returns = rw (deref-ok p w v.left.is_set v.left.alive, c) refl;
        tunnel = v;
        shut = c;
        gone = (v.left.listed ∙ c, v.left.descriptor ∙ c);
        unchanged = λ _. refl;
        spared = refl;
        out_kept = refl;
        same = record { members = λ r np nq. refl; handlers = λ r np nq. refl };
      }
    ]
