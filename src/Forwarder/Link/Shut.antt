-- ===== src/Forwarder/Link/Shut.antt =====
-- `CloseForReading` and `CloseForWriting` of src/forwarder.cc, which close one direction of a link.
use hcproxy.Common.{
  if_true, if_false, subst, ℕ, suc, ◌+◌, ◌≡◌, refl, ap, sym, ◌∙◌, Bool, true, false, List, ◌∷◌,
  arith, Outcome, ok, ◌==◌, Bool-cases, inl, inr, ◌⊎◌, pass, Option, none, some,
}
use hcproxy.NodeList.{Ptr}
use hcproxy.Bits.{epoll_in, epoll_out, epoll_et}
use hcproxy.Epoll.{Ctl, CtlOp, IsDocumented}
use hcproxy.EventLoop.{Handler, EventLoop, modify}
use hcproxy.EventLoop.References.{deref-ok}
use hcproxy.Forwarder.{Kernel}
use hcproxy.Forwarder.Link.{
  Link, is_open, set_link, shut_ok, shut_rd, shut_wr, close_for_reading, close_for_writing,
}
use hcproxy.Forwarder.Link.Frame.{modify-Changed}
use hcproxy.Forwarder.Link.Sides.{Tunnel, SameElse}
use hcproxy.Forwarder.Link.Close.{close_link-Closed}

-- What it comes to that `p` is closed for reading.
pub record Shut (w : EventLoop Link) (t : ℕ) (order : List Ptr) (p q : Ptr) (a b : ℕ)
    (r : Outcome (EventLoop Link)) : Type 0 where
  pub after : EventLoop Link
  pub rest : List Ptr
  pub returns : r ≡ ok after
  pub tunnel : Tunnel after t rest p q a b
  pub deaf : (after.handlers p).derived.readable ≡ false
  pub told :
      (w.handlers p).derived.writable ≡ true
      → after.epoll.calls
        ≡ record {
          op = CtlOp.modify;
          fd = (w.handlers p).fd;
          events = epoll_out + epoll_et;
          handler = p;
        }
          ∷ w.epoll.calls
  pub writes : (after.handlers p).derived.writable ≡ (w.handlers p).derived.writable
  pub spared : (after.handlers q).derived ≡ (w.handlers q).derived
  pub out_kept : (after.handlers p).derived.out ≡ (w.handlers p).derived.out
  pub same : SameElse w after order rest p q

-- What it comes to that `p` is closed for writing.
pub record Muted (w : EventLoop Link) (t : ℕ) (order : List Ptr) (p q : Ptr) (a b : ℕ)
    (r : Outcome (EventLoop Link)) : Type 0 where
  pub after : EventLoop Link
  pub rest : List Ptr
  pub returns : r ≡ ok after
  pub tunnel : Tunnel after t rest p q a b
  pub mute : (after.handlers p).derived.writable ≡ false
  pub told :
      (w.handlers p).derived.readable ≡ true
      → after.epoll.calls
        ≡ record {
          op = CtlOp.modify;
          fd = (w.handlers p).fd;
          events = epoll_in + epoll_et;
          handler = p;
        }
          ∷ w.epoll.calls
  pub reads : (after.handlers p).derived.readable ≡ (w.handlers p).derived.readable
  pub spared : (after.handlers q).derived ≡ (w.handlers q).derived
  pub out_kept : (after.handlers p).derived.out ≡ (w.handlers p).derived.out
  pub same : SameElse w after order rest p q

pub closed-flags : (x : Link) → is_open x ≡ false → (x.readable ≡ false) × (x.writable ≡ false)
closed-flags x h = elim (Bool-cases x.readable) [
  | inl r ↦ absurd (ground arith)
  | inr r ↦ (r, ground arith)
]

module _ {W : Type 0} (epoll_ctl : Ctl) (documented : IsDocumented epoll_ctl) (close : ℕ → Bool)
    (closes : (fd : ℕ) → close fd ≡ true) (shutdown : ℕ → ℕ → Option ℕ)
    (shuts : (fd how : ℕ) → (shutdown fd how ≡ none) ⊎ (shutdown fd how ≡ some 107)) (k : Kernel W)
    (pipe_closes : k.close ≡ true) (w : EventLoop Link) (t : ℕ) (p q : Ptr) (a b : ℕ) where
  shut_ok_always : (fd how : ℕ) → shut_ok epoll_ctl close shutdown k fd how ≡ true
  unfolding shut_ok
  shut_ok_always fd how = elim (shuts fd how) [
    | inl e ↦ ap (λ r. elim r [ none ↦ true | some x ↦ x == 107 ]) e
    | inr e ↦ ap (λ r. elim r [ none ↦ true | some x ↦ x == 107 ]) e
  ]

  module _ {order : List Ptr} (v : Tunnel w t order p q (suc a) (suc b)) where
    writing-returns :
        (x : Link) (u : EventLoop Link)
        → (w.handlers p).derived.readable ≡ true
        → (w.handlers p).derived.writable ≡ true
        → x ≡ record (w.handlers p).derived { readable = false }
        → modify epoll_ctl p (epoll_out + epoll_et) (set_link p x w) ≡ ok u
        → close_for_reading epoll_ctl close shutdown k p w ≡ ok u
    unfolding close_for_reading
    writing-returns x u readable writable e done =
        rw (deref-ok p w v.left.is_set v.left.alive, pass readable)
          (sym (if_true _ _ writable)
            ∙ rw
                (
                  subst (λ y. modify epoll_ctl p (epoll_out + epoll_et) (set_link p y w) ≡ ok u) e
                      done,
                  pass (shut_ok_always (w.handlers p).fd shut_rd),
                )
                refl)

    reading-returns :
        (x : Link) (u : EventLoop Link)
        → (w.handlers p).derived.readable ≡ true
        → (w.handlers p).derived.writable ≡ true
        → x ≡ record (w.handlers p).derived { writable = false }
        → modify epoll_ctl p (epoll_in + epoll_et) (set_link p x w) ≡ ok u
        → close_for_writing epoll_ctl close shutdown k p w ≡ ok u
    unfolding close_for_writing
    reading-returns x u readable writable e done =
        rw (deref-ok p w v.left.is_set v.left.alive, pass writable)
          (sym (if_true _ _ readable)
            ∙ rw
                (
                  subst (λ y. modify epoll_ctl p (epoll_in + epoll_et) (set_link p y w) ≡ ok u) e
                      done,
                  pass (shut_ok_always (w.handlers p).fd shut_wr),
                )
                refl)

    half_read :
        (w.handlers p).derived.readable ≡ true
        → (w.handlers p).derived.writable ≡ true
        → Shut w t order p q (suc a) (suc b) (close_for_reading epoll_ctl close shutdown k p w)
    half_read readable writable =
        let x = record (w.handlers p).derived { readable = false } in
        let c =
          modify-Changed epoll_ctl documented w t order p q a b (epoll_out + epoll_et) x
            (ground arith) (ground arith) refl refl v in
        record {
          after = c.after;
          rest = order;
          returns = writing-returns x c.after readable writable refl c.returns;
          tunnel = c.tunnel;
          deaf = ap (λ (y : Link). y.readable) c.now;
          told = λ _. c.told;
          writes = ap (λ (y : Link). y.writable) c.now;
          spared = ap (λ (h : Handler Link). h.derived) (c.rest q (λ e. v.apart (sym e)));
          out_kept = ap (λ (y : Link). y.out) c.now;
          same = record { members = λ r np nq. refl; handlers = λ r np nq. c.rest r np };
        }

    half_written :
        (w.handlers p).derived.readable ≡ true
        → (w.handlers p).derived.writable ≡ true
        → Muted w t order p q (suc a) (suc b) (close_for_writing epoll_ctl close shutdown k p w)
    half_written readable writable =
        let x = record (w.handlers p).derived { writable = false } in
        let c =
          modify-Changed epoll_ctl documented w t order p q a b (epoll_in + epoll_et) x
            (ground arith) (ground arith) refl refl v in
        record {
          after = c.after;
          rest = order;
          returns = reading-returns x c.after readable writable refl c.returns;
          tunnel = c.tunnel;
          mute = ap (λ (y : Link). y.writable) c.now;
          told = λ _. c.told;
          reads = ap (λ (y : Link). y.readable) c.now;
          spared = ap (λ (h : Handler Link). h.derived) (c.rest q (λ e. v.apart (sym e)));
          out_kept = ap (λ (y : Link). y.out) c.now;
          same = record { members = λ r np nq. refl; handlers = λ r np nq. c.rest r np };
        }

    -- CloseForReading of a readable link of a tunnel, of which the caller holds both links, passes
    -- all checks and leaves a tunnel: the link is not readable any more and as writable as before.
    -- If it is still writable it is watched for EPOLLOUT and EPOLLET from then on, else it is out
    -- of the loop; the other link and all else are spared.
    pub close_for_reading-Shut :
        (w.handlers p).derived.readable ≡ true
        → Shut w t order p q (suc a) (suc b) (close_for_reading epoll_ctl close shutdown k p w)
    unfolding close_for_reading
    close_for_reading-Shut readable = elim (Bool-cases (w.handlers p).derived.writable) [
      | inl writable ↦ half_read readable writable
      | inr silent ↦
          let c =
            close_link-Closed epoll_ctl documented close closes shutdown k pipe_closes w t p q a b
              v in
          let flags = closed-flags (c.after.handlers p).derived c.shut in
          record {
            after = c.after;
            rest = c.rest;
            returns =
                rw (deref-ok p w v.left.is_set v.left.alive, pass readable)
                  (sym (if_false _ _ silent) ∙ c.returns);
            tunnel = c.tunnel;
            deaf = flags.0;
            writes = flags.1 ∙ sym silent;
            told = λ on. absurd (ground (arith, on, silent));
            spared = c.spared;
            out_kept = c.out_kept;
            same = c.same;
          }
    ]

    -- CloseForWriting of a writable link of a tunnel, of which the caller holds both links, passes
    -- all checks and leaves a tunnel: the link is not writable any more and as readable as before.
    -- If it is still readable it is watched for EPOLLIN and EPOLLET from then on, else it is out of
    -- the loop; the other link and all else are spared.
    pub close_for_writing-Muted :
        (w.handlers p).derived.writable ≡ true
        → Muted w t order p q (suc a) (suc b) (close_for_writing epoll_ctl close shutdown k p w)
    unfolding close_for_writing
    close_for_writing-Muted writable = elim (Bool-cases (w.handlers p).derived.readable) [
      | inl readable ↦ half_written readable writable
      | inr silent ↦
          let c =
            close_link-Closed epoll_ctl documented close closes shutdown k pipe_closes w t p q a b
              v in
          let flags = closed-flags (c.after.handlers p).derived c.shut in
          record {
            after = c.after;
            rest = c.rest;
            returns =
                rw (deref-ok p w v.left.is_set v.left.alive, pass writable)
                  (sym (if_false _ _ silent) ∙ c.returns);
            tunnel = c.tunnel;
            mute = flags.1;
            reads = flags.0 ∙ sym silent;
            told = λ on. absurd (ground (arith, on, silent));
            spared = c.spared;
            out_kept = c.out_kept;
            same = c.same;
          }
    ]
