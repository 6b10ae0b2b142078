-- ===== src/Forwarder/Start/Opened.antt =====
-- `New` of src/forwarder.cc as a whole.
use hcproxy.Common.{
  ℕ, ◌≡◌, ◌≢◌, refl, ap, sym, ◌∙◌, subst, some, List, arith, Outcome, fatal, eq-cases, ◌>>=◌, inl,
  inr, Option-cases, length,
}
use hcproxy.NodeList.{Ptr, null, update_self}
use hcproxy.EventLoop.{Handler, EventLoop, set_handler, deref}
use hcproxy.EventLoop.References.{deref-ok}
use hcproxy.EventLoop.Invariant.{Inv, Inv-set_away}
use hcproxy.Forwarder.{Buffer}
use hcproxy.Forwarder.Link.{Link, set_link}
use hcproxy.Forwarder.Link.Flow.{Calls}
use hcproxy.Forwarder.Start.{
  response, BufferSizes, PipeCalls, made, no_pipe, discard, connect_links, open_pipes, new_links,
}
use hcproxy.Forwarder.Start.Buffers.{opened, init-opened, init-refused, init-unsized}
use hcproxy.Forwarder.Start.Discard.{Discarded, discard-Discarded}
use hcproxy.Forwarder.Start.Joined.{links-Joined}
use hcproxy.Forwarder.Start.Connected.{Connected, connect_links-Connected}
use hcproxy.Forwarder.Start.Started.{
  Started, runs, refused, crashed, IsOpened, IsUnsized, Connected-before, Discarded-before,
  opened-IsSound, opened-IsNew, CanStart,
}

module _ {W : Type 0} (c : Calls W) (w : EventLoop Link) (t : ℕ) (order : List Ptr) (p q : Ptr)
    (fd_p fd_q : ℕ) (opt : BufferSizes) (first second : PipeCalls) (clock : ℕ → ℕ)
    (s : CanStart w t order p q fd_p fd_q opt first second clock) where
  made₁ : EventLoop Link
  made₁ = set_handler p (made fd_p no_pipe null) w

  made₂ : EventLoop Link
  unfolding made₁
  made₂ = set_handler q (made fd_q no_pipe null) made₁

  made-p : made₂.handlers p ≡ made fd_p no_pipe null
  unfolding made₂ made₁
  made-p = let ne = s.apart in ground arith ∙ update_self w.handlers p _

  made-q : made₂.handlers q ≡ made fd_q no_pipe null
  unfolding made₂ made₁
  made-q = update_self made₁.handlers q _

  made-Inv : Inv made₂ t order
  unfolding made₂ made₁
  made-Inv = Inv-set_away made₁ q _ (Inv-set_away w p _ s.inv s.unused.0 refl) s.unused.1 refl

  opens : EventLoop Link → Outcome (EventLoop Link)
  opens = open_pipes c.epoll_ctl c.close c.kernel clock (length response) p q opt first second

  neither : (e : ℕ) → first.errno ≡ some e → Discarded made₂ t order p q (opens made₂)
  unfolding opens open_pipes
  neither e i = rw (init-refused opt.server_to_client first s.pipes.0 s.sizes.0 e i) (
      discard-Discarded c.close c.closes c.kernel c.splice_documented.closes made₂ t order p q fd_p
        fd_q no_pipe no_pipe null null made-Inv s.set.0 s.set.1 s.apart s.unused.0 s.unused.1 made-p
        made-q)

  piped₁ : EventLoop Link
  unfolding made₂ made₁
  piped₁ = set_handler p (made fd_p (opened first.set_size) null) made₂

  piped₂ : EventLoop Link
  unfolding piped₁ made₂ made₁
  piped₂ = set_handler q (made fd_q (opened second.set_size) null) piped₁

  piped₁-p : piped₁.handlers p ≡ made fd_p (opened first.set_size) null
  unfolding piped₁ made₂ made₁
  piped₁-p = update_self made₂.handlers p _

  piped₁-q : piped₁.handlers q ≡ made fd_q no_pipe null
  unfolding piped₁ made₂ made₁
  piped₁-q = let ne = s.apart in ground arith ∙ made-q

  piped₂-p : piped₂.handlers p ≡ made fd_p (opened first.set_size) null
  unfolding piped₂ piped₁ made₂ made₁
  piped₂-p = let ne = s.apart in ground arith ∙ piped₁-p

  piped₂-q : piped₂.handlers q ≡ made fd_q (opened second.set_size) null
  unfolding piped₂ piped₁ made₂ made₁
  piped₂-q = update_self piped₁.handlers q _

  piped₁-Inv : Inv piped₁ t order
  unfolding piped₁ made₂ made₁
  piped₁-Inv = Inv-set_away made₂ p _ made-Inv s.unused.0 refl

  piped₂-Inv : Inv piped₂ t order
  unfolding piped₂ piped₁ made₂ made₁
  piped₂-Inv = Inv-set_away piped₁ q _ piped₁-Inv s.unused.1 refl

  -- the steps, from any state in which the links are made
  module _ (m : EventLoop Link) (one : IsOpened first)
      (at_p : m.handlers p ≡ made fd_p no_pipe null) where
    abbrev with_pipe : Ptr → Handler Link → Buffer → EventLoop Link → EventLoop Link
    with_pipe r h b u = set_handler r (record h { derived = record h.derived { out = b } }) u

    -- from the second success on
    attach : EventLoop Link → Outcome (EventLoop Link)
    attach u = do
      h ← deref q u
      connect_links c.epoll_ctl clock (length response) p q
          (set_link q (record h.derived { out = opened second.set_size }) u)

    opens-one :
        (e : ℕ)
        → second.errno ≡ some e
        → opens m ≡ (
            discard c.close c.kernel p (set_handler p (made fd_p (opened first.set_size) null) m)
            >>= discard c.close c.kernel q)
    unfolding opens open_pipes
    opens-one e i =
        rw
          (
            init-opened opt.server_to_client first s.pipes.0 s.sizes.0 one.0 one.1,
            deref-ok p m s.set.0 (ap (λ (h : Handler Link). h.freed) at_p),
            init-refused opt.client_to_server second s.pipes.1 s.sizes.1 e i,
          )
          refl
        ∙ ap
            (λ (h : Handler Link).
              discard c.close c.kernel p (with_pipe p h (opened first.set_size) m)
              >>= discard c.close c.kernel q)
            at_p

    opens-unsized : IsUnsized second → opens m ≡ fatal
    unfolding opens open_pipes
    opens-unsized e =
        rw
          (
            init-opened opt.server_to_client first s.pipes.0 s.sizes.0 one.0 one.1,
            deref-ok p m s.set.0 (ap (λ (h : Handler Link). h.freed) at_p),
            init-unsized opt.client_to_server second s.pipes.1 s.sizes.1 e.0 e.1,
          )
          refl

    opens-two :
        IsOpened second
        → (n : EventLoop Link) → n ≡ set_handler p (made fd_p (opened first.set_size) null) m
        → n.handlers q ≡ made fd_q no_pipe null
        → opens m
          ≡ connect_links c.epoll_ctl clock
              (length response)
              p
              q
              (set_handler q (made fd_q (opened second.set_size) null) n)
    unfolding opens open_pipes attach
    opens-two two n e at_q =
        rw
          (
            init-opened opt.server_to_client first s.pipes.0 s.sizes.0 one.0 one.1,
            deref-ok p m s.set.0 (ap (λ (h : Handler Link). h.freed) at_p),
            init-opened opt.client_to_server second s.pipes.1 s.sizes.1 two.0 two.1,
          )
          refl
        ∙ ap (λ (h : Handler Link). attach (with_pipe p h (opened first.set_size) m)) at_p
        ∙ ap attach (sym e)
        ∙ rw (deref-ok q n s.set.1 (ap (λ (h : Handler Link). h.freed) at_q)) refl
        ∙ ap
            (λ (h : Handler Link).
              connect_links c.epoll_ctl clock (length response) p q
                (with_pipe q h (opened second.set_size) n))
            at_q

  unsized : IsUnsized first → opens made₂ ≡ fatal
  unfolding opens open_pipes
  unsized e = rw (init-unsized opt.server_to_client first s.pipes.0 s.sizes.0 e.0 e.1) refl

  module _ (one : IsOpened first) where
    only_one : (e : ℕ) → second.errno ≡ some e → Discarded piped₁ t order p q (opens made₂)
    unfolding piped₁ made₂ made₁
    only_one e i = subst (Discarded piped₁ t order p q) (sym (opens-one made₂ one made-p e i)) (
        discard-Discarded c.close c.closes c.kernel c.splice_documented.closes piped₁ t order p q
          fd_p fd_q (opened first.set_size) no_pipe null null piped₁-Inv s.set.0 s.set.1 s.apart
          s.unused.0 s.unused.1 piped₁-p piped₁-q)

    both_pipes : IsOpened second → Connected piped₂ (clock 1) order p q (opens made₂)
    unfolding piped₂ piped₁ made₂ made₁
    both_pipes two =
        subst (Connected piped₂ (clock 1) order p q)
          (sym (opens-two made₂ one made-p two piped₁ refl piped₁-q))
          (connect_links-Connected c.epoll_ctl c.ctl_documented clock piped₂ t order p q fd_p fd_q
            (opened first.set_size) (opened second.set_size)
            (links-Joined piped₂ t order p q fd_p fd_q (opened first.set_size)
              (opened second.set_size) null null piped₂-Inv s.set.0 s.set.1 s.apart s.unused.0
              s.unused.1 piped₂-p piped₂-q)
            s.set.0 s.set.1 s.apart s.two_fds s.unwatched.0 s.unwatched.1 s.later
            (opened-IsSound first.set_size) (opened-IsSound second.set_size)
            (opened-IsNew first.set_size (s.pipes.0.rounds_up one.1).1)
            (opened-IsNew second.set_size (s.pipes.1.rounds_up two.1).1))

  made-others : (r : Ptr) → r ≢ p → r ≢ q → made₂.handlers r ≡ w.handlers r
  unfolding made₂ made₁
  made-others r np nq = ground arith

  piped₁-others : (r : Ptr) → r ≢ p → r ≢ q → piped₁.handlers r ≡ w.handlers r
  unfolding piped₁ made₂ made₁
  piped₁-others r np nq = ground arith

  piped₂-others : (r : Ptr) → r ≢ p → r ≢ q → piped₂.handlers r ≡ w.handlers r
  unfolding piped₂ piped₁ made₂ made₁
  piped₂-others r np nq = ground arith

  starts : Outcome (EventLoop Link)
  starts =
      new_links c.epoll_ctl c.close c.kernel clock (length response) p q fd_p fd_q opt first second
        w

  starts-opens : starts ≡ opens made₂
  unfolding starts new_links opens made₂ made₁
  starts-opens = refl

  -- New, for two descriptors that the loop does not watch yet, with sizes of the pipes above 0 and
  -- below INT_MAX and a response that is written as a whole, fails a check exactly if a pipe was
  -- opened whose size the kernel refuses to set. Otherwise, with both pipes it leaves a tunnel in
  -- the loop, both ways of it open, with the response and nothing else on its way to the client;
  -- where a pipe is refused, both links are deleted and the loop is as before. No other handler is
  -- changed.
  pub new_links-Started : Started w t (clock 1) order p q first second (
      new_links c.epoll_ctl c.close c.kernel clock
        (length response)
        p
        q
        fd_p
        fd_q
        opt
        first
        second
        w)
  unfolding starts piped₂ piped₁ made₂ made₁
  new_links-Started = elim (Option-cases first.errno) [
    | inr (e, i) ↦
        refused (inl (λ n. cc)) (
          Discarded-before w made₂ t (clock 1) order p q made-others refl starts-opens
            (neither e i))
    | inl one ↦ elim (eq-cases first.set_size 0) [
      | inl unset ↦ crashed (inl (one, unset)) (starts-opens ∙ unsized (one, unset))
      | inr set ↦ elim (Option-cases second.errno) [
        | inr (e, i) ↦ refused (inr ((one, omega (arith, set)), λ n. cc)) (
            Discarded-before w piped₁ t (clock 1) order p q piped₁-others refl starts-opens
              (only_one (one, omega (arith, set)) e i))
        | inl two ↦ elim (eq-cases second.set_size 0) [
          | inl unset ↦
              crashed (inr ((one, omega (arith, set)), (two, unset)))
                (starts-opens ∙ opens-unsized made₂ (one, omega (arith, set)) made-p (two, unset))
          | inr also ↦
              runs (one, omega (arith, set)) (two, omega (arith, also))
                (Connected-before w piped₂ t (clock 1) order p q piped₂-others refl starts-opens
                  (both_pipes (one, omega (arith, set)) (two, omega (arith, also))))
        ]
      ]
    ]
  ]
