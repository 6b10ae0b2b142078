-- ===== src/Forwarder/Link/Frame.antt =====
-- Changes of one link of a tunnel that leave it a tunnel (src/forwarder.cc).
use hcproxy.Common.{ℕ, suc, ◌+◌, ◌≡◌, ◌≢◌, refl, ap, sym, ◌∙◌, true, List, ◌∷◌, arith, ok}
use hcproxy.NodeList.{Ptr, update_self}
use hcproxy.Epoll.{Ctl, CtlOp, IsDocumented}
use hcproxy.EventLoop.{Handler, EventLoop, modify}
use hcproxy.EventLoop.Invariant.{Inv, Inv-set_live}
use hcproxy.EventLoop.Remove.{modify-Inv}
use hcproxy.Forwarder.Link.{Link, is_open, set_link}
use hcproxy.Forwarder.Link.Sides.{num, Side, Tunnel}

-- A link with other flags or another buffer is as open as before.
module _ (w : EventLoop Link) (p q : Ptr) (x : Link)
    (same_open : is_open x ≡ is_open (w.handlers p).derived)
    (same_other : x.other ≡ (w.handlers p).derived.other)
    (same_fd : x.fd_open ≡ (w.handlers p).derived.fd_open) where
  pub set_link-at : (set_link p x w).handlers p ≡ record (w.handlers p) { derived = x }
  set_link-at = update_self w.handlers p _

  pub set_link-other : (r : Ptr) → r ≢ p → (set_link p x w).handlers r ≡ w.handlers r
  set_link-other r ne = ground arith

  open_at : is_open ((set_link p x w).handlers p).derived ≡ is_open (w.handlers p).derived
  open_at = ap (λ (h : Handler Link). is_open h.derived) set_link-at ∙ same_open

  pub set_link-Tunnel :
      {t : ℕ} {order : List Ptr} {a b : ℕ}
      → Tunnel w t order p q (suc a) (suc b)
      → Tunnel (set_link p x w) t order p q (suc a) (suc b)
  set_link-Tunnel v =
      let open_q =
        ap (λ (h : Handler Link). is_open h.derived) (set_link-other q (λ e. v.apart (sym e))) in
      let same_q = set_link-other q (λ e. v.apart (sym e)) in
      record {
        inv = Inv-set_live w p _ v.inv refl refl refl refl (omega (arith, v.left.counted));
        apart = v.apart;
        left = record {
          is_set = v.left.is_set;
          alive = ap (λ (h : Handler Link). h.freed) set_link-at ∙ v.left.alive;
          joined =
              ap (λ (h : Handler Link). h.derived.other) set_link-at ∙ same_other ∙ v.left.joined;
          listed = v.left.listed ∙ sym open_at;
          descriptor =
              ap (λ (h : Handler Link). h.derived.fd_open) set_link-at
              ∙ same_fd
              ∙ v.left.descriptor
              ∙ sym open_at;
          counted = omega (
            arith,
            ap (λ (h : Handler Link). h.ref_count) set_link-at,
            v.left.counted,
            ap num open_at,
            ap num open_q,
          );
        };
        right = record {
          is_set = v.right.is_set;
          alive = ap (λ (h : Handler Link). h.freed) same_q ∙ v.right.alive;
          joined = ap (λ (h : Handler Link). h.derived.other) same_q ∙ v.right.joined;
          listed = v.right.listed ∙ sym open_q;
          descriptor =
              ap (λ (h : Handler Link). h.derived.fd_open) same_q ∙ v.right.descriptor ∙ sym open_q;
          counted = omega (
            arith,
            ap (λ (h : Handler Link). h.ref_count) same_q,
            v.right.counted,
            ap num open_at,
            ap num open_q,
          );
        };
      }

-- The handlers alone decide about the two sides.
pub Side-same :
    (w u : EventLoop Link) (order : List Ptr) (p q : Ptr) (held : ℕ)
    → u.handlers ≡ w.handlers
    → Side w order p q held
    → Side u order p q held
Side-same w u order p q held e s = record {
  is_set = s.is_set;
  alive = ap (λ (f : Ptr → Handler Link). (f p).freed) e ∙ s.alive;
  joined = ap (λ (f : Ptr → Handler Link). (f p).derived.other) e ∙ s.joined;
  listed = s.listed ∙ ap (λ (f : Ptr → Handler Link). is_open (f p).derived) (sym e);
  descriptor =
      ap (λ (f : Ptr → Handler Link). (f p).derived.fd_open) e
      ∙ s.descriptor
      ∙ ap (λ (f : Ptr → Handler Link). is_open (f p).derived) (sym e);
  counted =
      ap (λ (f : Ptr → Handler Link). (f p).ref_count) e
      ∙ s.counted
      ∙ ap
          (λ (f : Ptr → Handler Link).
            held + num (is_open (f p).derived) + num (is_open (f q).derived))
          (sym e);
}

pub Tunnel-same :
    (w u : EventLoop Link) (t : ℕ) (order : List Ptr) (p q : Ptr) (a b : ℕ)
    → u.handlers ≡ w.handlers
    → Inv u t order
    → Tunnel w t order p q a b
    → Tunnel u t order p q a b
Tunnel-same w u t order p q a b e inv v = record {
  inv = inv;
  apart = v.apart;
  left = Side-same w u order p q a e v.left;
  right = Side-same w u order q p b e v.right;
}

-- The link `p` has become `x`, and the kernel has been told what to watch it for.
pub record Changed (epoll_ctl : Ctl) (w : EventLoop Link) (t : ℕ) (order : List Ptr) (p q : Ptr)
    (a b events : ℕ) (x : Link) : Type 0 where
  pub after : EventLoop Link
  pub returns : modify epoll_ctl p events (set_link p x w) ≡ ok after
  pub tunnel : Tunnel after t order p q a b
  pub now : (after.handlers p).derived ≡ x
  pub told :
      after.epoll.calls
      ≡ record { op = CtlOp.modify; fd = (w.handlers p).fd; events = events; handler = p }
        ∷ w.epoll.calls
  pub rest : (r : Ptr) → r ≢ p → after.handlers r ≡ w.handlers r

pub modify-Changed :
    (epoll_ctl : Ctl)
    → IsDocumented epoll_ctl
    → (w : EventLoop Link) (t : ℕ) (order : List Ptr) (p q : Ptr) (a b events : ℕ) (x : Link)
    → is_open (w.handlers p).derived ≡ true
    → is_open x ≡ true
    → x.other ≡ (w.handlers p).derived.other
    → x.fd_open ≡ (w.handlers p).derived.fd_open
    → Tunnel w t order p q (suc a) (suc b)
    → Changed epoll_ctl w t order p q (suc a) (suc b) events x
modify-Changed epoll_ctl documented w t order p q a b events x was is same same_fd v =
    let still = is ∙ sym was in
    let y = set_link-Tunnel w p q x still same same_fd v in
    let (u, done, inv, handlers, calls) =
      modify-Inv (set_link p x w) p epoll_ctl documented events y.inv (v.left.listed ∙ was)
        v.left.is_set in
    record {
      after = u;
      returns = done;
      tunnel = Tunnel-same (set_link p x w) u t order p q (suc a) (suc b) handlers inv y;
      now =
          ap (λ (f : Ptr → Handler Link). (f p).derived) handlers
          ∙ ap (λ (h : Handler Link). h.derived) (set_link-at w p q x still same same_fd);
      told =
          calls
          ∙ ap
              (λ (h : Handler Link).
                record { op = CtlOp.modify; fd = h.fd; events = events; handler = p }
                ∷ w.epoll.calls)
              (set_link-at w p q x still same same_fd);
      rest = λ r ne.
          ap (λ (f : Ptr → Handler Link). f r) handlers
          ∙ set_link-other w p q x still same same_fd r ne;
    }
