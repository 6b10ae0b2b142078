-- ===== src/Forwarder/Start/Joined.antt =====
-- `New` in src/forwarder.cc from where both links have their pipes to where they join the loop.
use hcproxy.Common.{ℕ, ◌≡◌, ◌≢◌, refl, ap, ◌∙◌, List, arith, ok, ◌∉◌, length}
use hcproxy.NodeList.{Ptr, null, update_self}
use hcproxy.Epoll.{Ctl}
use hcproxy.EventLoop.{Handler, EventLoop, set_handler, deref, add}
use hcproxy.EventLoop.References.{deref-ok, inc_ref-ok}
use hcproxy.EventLoop.Invariant.{Inv, Inv-set_away}
use hcproxy.Forwarder.{Buffer, write}
use hcproxy.Forwarder.Link.{Link}
use hcproxy.Forwarder.Start.{response, made, all_events, connect_links}

-- a link that is referred to once
abbrev pub referred : ℕ → Buffer → Ptr → Handler Link
referred fd out other = record (made fd out other) { ref_count = 1 }

-- The loop in which the links point to each other and are referred to once, and how `connect_links`
-- goes on from there.
pub record Joined (w : EventLoop Link) (t : ℕ) (order : List Ptr) (p q : Ptr) (fd_p fd_q : ℕ)
    (b d : Buffer) : Type 0 where
  pub held : EventLoop Link
  pub inv : Inv held t order
  pub at_p : held.handlers p ≡ referred fd_p b q
  pub at_q : held.handlers q ≡ referred fd_q d p
  pub calls : held.epoll.calls ≡ w.epoll.calls
  pub timeout : held.timeout ≡ w.timeout
  pub others : (r : Ptr) → r ≢ p → r ≢ q → held.handlers r ≡ w.handlers r
  pub returns :
      (epoll_ctl : Ctl) (clock : ℕ → ℕ) (u₁ u₂ : EventLoop Link)
      → add epoll_ctl (clock 0) p all_events held ≡ ok u₁
      → add epoll_ctl (clock 1) q all_events u₁ ≡ ok u₂
      → deref p u₂ ≡ ok (u₂.handlers p)
      → (out : Buffer) → write response (length response) (u₂.handlers p).derived.out ≡ ok out
      → connect_links epoll_ctl clock (length response) p q w
        ≡ ok (
            set_handler p
              (record (u₂.handlers p) { derived = record (u₂.handlers p).derived { out = out } })
              u₂)

module _ (w : EventLoop Link) (t : ℕ) (order : List Ptr) (p q : Ptr) (fd_p fd_q : ℕ) (b d : Buffer)
    (x y : Ptr) (v : Inv w t order) (set_p : p ≢ null) (set_q : q ≢ null) (apart : p ≢ q)
    (out_p : p ∉ order) (out_q : q ∉ order) (at_p : w.handlers p ≡ made fd_p b x)
    (at_q : w.handlers q ≡ made fd_q d y) where
  joined₁ : EventLoop Link
  joined₁ = set_handler p (made fd_p b q) w

  joined₂ : EventLoop Link
  unfolding joined₁
  joined₂ = set_handler q (made fd_q d p) joined₁

  held₁ : EventLoop Link
  unfolding joined₂ joined₁
  held₁ = set_handler p (referred fd_p b q) joined₂

  held₂ : EventLoop Link
  unfolding held₁ joined₂ joined₁
  held₂ = set_handler q (referred fd_q d p) held₁

  joined₁-q : joined₁.handlers q ≡ made fd_q d y
  unfolding joined₁
  joined₁-q = ground (arith, apart) ∙ at_q

  joined₂-p : joined₂.handlers p ≡ made fd_p b q
  unfolding joined₂ joined₁
  joined₂-p = ground (arith, apart) ∙ update_self w.handlers p _

  held₁-q : held₁.handlers q ≡ made fd_q d p
  unfolding held₁ joined₂ joined₁
  held₁-q = ground (arith, apart) ∙ update_self joined₁.handlers q (made fd_q d p)

  held₂-p : held₂.handlers p ≡ referred fd_p b q
  unfolding held₂ held₁ joined₂ joined₁
  held₂-p = ground (arith, apart) ∙ update_self joined₂.handlers p (referred fd_p b q)

  held₂-q : held₂.handlers q ≡ referred fd_q d p
  unfolding held₂ held₁ joined₂ joined₁
  held₂-q = update_self held₁.handlers q _

  held₂-Inv : Inv held₂ t order
  unfolding held₂ held₁ joined₂ joined₁
  held₂-Inv =
      Inv-set_away held₁ q _
        (Inv-set_away joined₂ p _
          (Inv-set_away joined₁ q _ (Inv-set_away w p _ v out_p refl) out_q refl) out_p refl)
        out_q refl

  -- the steps up to the first `Add`
  module _ (epoll_ctl : Ctl) (clock : ℕ → ℕ) (u₁ u₂ : EventLoop Link) where
    connect_links-returns :
        add epoll_ctl (clock 0) p all_events held₂ ≡ ok u₁
        → add epoll_ctl (clock 1) q all_events u₁ ≡ ok u₂
        → deref p u₂ ≡ ok (u₂.handlers p)
        → (out : Buffer) → write response (length response) (u₂.handlers p).derived.out ≡ ok out
        → connect_links epoll_ctl clock (length response) p q w
          ≡ ok (
              set_handler p
                (record (u₂.handlers p) { derived = record (u₂.handlers p).derived { out = out } })
                u₂)
    unfolding connect_links held₂ held₁ joined₂ joined₁
    connect_links-returns first second at out written =
        rw
          (
            deref-ok p w set_p (ap (λ (h : Handler Link). h.freed) at_p),
            at_p,
            deref-ok q joined₁ set_q (ap (λ (h : Handler Link). h.freed) joined₁-q),
            joined₁-q,
            inc_ref-ok p joined₂ set_p (ap (λ (h : Handler Link). h.freed) joined₂-p),
            joined₂-p,
            inc_ref-ok q held₁ set_q (ap (λ (h : Handler Link). h.freed) held₁-q),
            held₁-q,
            first,
            second,
            at,
            written,
          )
          refl

  pub links-Joined : Joined w t order p q fd_p fd_q b d
  unfolding held₂ held₁ joined₂ joined₁
  links-Joined = record {
    held = held₂;
    inv = held₂-Inv;
    at_p = held₂-p;
    at_q = held₂-q;
    calls = refl;
    timeout = refl;
    others = λ r np nq. ground arith;
    returns = connect_links-returns;
  }
