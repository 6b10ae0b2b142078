-- ===== src/Forwarder/Link/Renew.antt =====
-- `Refresh` of `LinkEventHandler` in src/forwarder.cc.
use hcproxy.Common.{
  ℕ, ◌+◌, ◌≤◌, ◌≡◌, ◌≢◌, refl, ap, sym, ◌∙◌, subst, true, false, List, [], ◌∷◌, ◌++◌, arith,
  Outcome, ok, Bool-cases, eq-cases, inl, inr, has, mem-split, has-append, if_true, if_false,
}
use hcproxy.NodeList.{Ptr}
use hcproxy.EventLoop.{Handler, EventLoop, refresh}
use hcproxy.EventLoop.References.{deref-ok}
use hcproxy.EventLoop.Invariant.{Inv, Inv-later}
use hcproxy.EventLoop.Refresh.{refresh-Inv}
use hcproxy.Forwarder.Link.{Link, is_open, Net, refresh_open}
use hcproxy.Forwarder.Link.Sides.{num, Side, SameElse}
use hcproxy.Forwarder.Link.Flow.{Calls, Flow, SameElse-refl}

-- A side of a tunnel in a loop that differs in nothing that it speaks of.
pub Side-frame :
    {w u : EventLoop Link} {order rest : List Ptr} {p q : Ptr} {held : ℕ}
    → (u.handlers p).freed ≡ (w.handlers p).freed
    → (u.handlers p).ref_count ≡ (w.handlers p).ref_count
    → (u.handlers p).derived ≡ (w.handlers p).derived
    → (u.handlers q).derived ≡ (w.handlers q).derived
    → has p rest ≡ has p order
    → Side w order p q held
    → Side u rest p q held
Side-frame {p} {q} {held} f r d e m s = record {
  is_set = s.is_set;
  alive = f ∙ s.alive;
  joined = ap (λ (x : Link). x.other) d ∙ s.joined;
  listed = m ∙ s.listed ∙ ap is_open (sym d);
  descriptor = ap (λ (x : Link). x.fd_open) d ∙ s.descriptor ∙ ap is_open (sym d);
  counted = omega (arith, r, s.counted, ap (λ x. num (is_open x)) d, ap (λ x. num (is_open x)) e);
}

-- The tunnel after `Refresh` of one of its links, at a later time.
pub record Renewed {W : Type 0} (n : Net W) (now : ℕ) (order : List Ptr) (p q : Ptr) (a b : ℕ)
    (r : Outcome (Net W)) : Type 0 where
  pub after : EventLoop Link
  pub rest : List Ptr
  pub returns : r ≡ ok (record n { loop = after })
  pub flow : Flow after now rest p q a b
  pub links : (x : Ptr) → (after.handlers x).derived ≡ (n.loop.handlers x).derived
  pub same : SameElse n.loop after order rest p q

has-rotated : (p x : Ptr) (xs ys : List Ptr) → has x ((xs ++ ys) ++ p ∷ []) ≡ has x (xs ++ p ∷ ys)
has-rotated p x xs ys =
    ground (arith, has-append x (xs ++ ys) (p ∷ []), has-append x xs ys, has-append x xs (p ∷ ys))

module _ {W : Type 0} (c : Calls W) (n : Net W) (t now : ℕ) (order : List Ptr) (p q : Ptr) (a b : ℕ)
    (later : t ≤ now) (v : Flow n.loop t order p q a b) where
  closed_stays :
      is_open (n.loop.handlers p).derived ≡ false
      → Renewed n now order p q a b (refresh_open c.epoll_ctl c.close c.shutdown c.kernel now p n)
  unfolding refresh_open
  closed_stays off = record {
    after = n.loop;
    rest = order;
    returns =
        rw (deref-ok p n.loop v.tunnel.left.is_set v.tunnel.left.alive) (sym (if_false _ _ off));
    flow = record {
      tunnel = record {
        inv = Inv-later later v.tunnel.inv;
        apart = v.tunnel.apart;
        left = v.tunnel.left;
        right = v.tunnel.right;
      };
      there = v.there;
      back = v.back;
    };
    links = λ x. refl;
    same = SameElse-refl n.loop order p q;
  }

  open-Renewed :
      is_open (n.loop.handlers p).derived ≡ true
      → (xs ys : List Ptr) → order ≡ xs ++ p ∷ ys
      → (u : EventLoop Link) → refresh now p n.loop ≡ ok u
      → Inv u now ((xs ++ ys) ++ p ∷ [])
      → u.handlers p ≡ record (n.loop.handlers p) { deadline = now + n.loop.timeout }
      → ((r : Ptr) → r ≢ p → u.handlers r ≡ n.loop.handlers r)
      → Renewed n now order p q a b (refresh_open c.epoll_ctl c.close c.shutdown c.kernel now p n)
  unfolding refresh_open
  open-Renewed on xs ys s u done inv at others =
      let members = λ (x : Ptr). has-rotated p x xs ys ∙ ap (has x) (sym s) in
      let link_p : (u.handlers p).derived ≡ (n.loop.handlers p).derived =
        ap (λ (h : Handler Link). h.derived) at in
      let same_q = others q (λ e. v.tunnel.apart (sym e)) in
      let link_q : (u.handlers q).derived ≡ (n.loop.handlers q).derived =
        ap (λ (h : Handler Link). h.derived) same_q in
      record {
        after = u;
        rest = (xs ++ ys) ++ p ∷ [];
        returns =
            rw (deref-ok p n.loop v.tunnel.left.is_set v.tunnel.left.alive)
              (sym (if_true _ _ on) ∙ rw done refl);
        flow = record {
          tunnel = record {
            inv = inv;
            apart = v.tunnel.apart;
            left =
                Side-frame (ap (λ (h : Handler Link). h.freed) at)
                  (ap (λ (h : Handler Link). h.ref_count) at) link_p link_q (members p)
                  v.tunnel.left;
            right =
                Side-frame (ap (λ (h : Handler Link). h.freed) same_q)
                  (ap (λ (h : Handler Link). h.ref_count) same_q) link_q link_p (members q)
                  v.tunnel.right;
          };
          there = rw (link_p, link_q) v.there;
          back = rw (link_p, link_q) v.back;
        };
        links = λ x. elim (eq-cases x p) [
          | inl e ↦ subst (λ y. (u.handlers y).derived ≡ (n.loop.handlers y).derived) (sym e) link_p
          | inr ne ↦ ap (λ (h : Handler Link). h.derived) (others x ne)
        ];
        same = record { members = λ r np nq. members r; handlers = λ r np nq. others r np };
      }

  -- `Refresh` of either link of a tunnel passes all its checks under a clock that does not run back,
  -- and leaves the tunnel as it is, but for the deadline of an open link.
  pub refresh_open-Renewed :
      Renewed n now order p q a b (refresh_open c.epoll_ctl c.close c.shutdown c.kernel now p n)
  refresh_open-Renewed = elim (Bool-cases (is_open (n.loop.handlers p).derived)) [
    | inr off ↦ closed_stays off
    | inl on ↦
        let (xs, ys, s) = mem-split p order (v.tunnel.left.listed ∙ on) in
        let (u, done, inv, at, others) =
          refresh-Inv n.loop p now xs ys later (subst (Inv n.loop t) s v.tunnel.inv)
            v.tunnel.left.is_set in
        open-Renewed on xs ys s u done inv at others
  ]
