-- ===== src/Forwarder/Link/Flow.antt =====
-- A tunnel of src/forwarder.cc with the pipes between its links, and what one half of the loop of
-- `ForwardFromOther` comes to.
use hcproxy.Common.{
  subst, ℕ, suc, ◌+◌, ◌*◌, ◌≤◌, ◌≡◌, ◌≢◌, refl, ap, sym, ◌∙◌, Bool, true, List, arith, Outcome, ok,
  ◌⊎◌, Option, none, some, length,
}
use hcproxy.NodeList.{Ptr}
use hcproxy.Epoll.{Ctl}
use hcproxy.Epoll
use hcproxy.Addr.{SockOpt, CanTell}
use hcproxy.EventLoop.{EventLoop}
use hcproxy.Parser.{Bytes}
use hcproxy.Forwarder.{Buffer, Kernel}
use hcproxy.Forwarder.Transfer.{IsSound, taken}
use hcproxy.Forwarder.Transfer
use hcproxy.Forwarder.Link.{Link, Net, Half, broken, is_io}
use hcproxy.Forwarder.Link.Terminate.{Torn}
use hcproxy.Forwarder.Link.Shut.{closed-flags}
use hcproxy.Forwarder.Link.Sides.{num, Tunnel, SameElse}

-- The system calls that a tunnel makes, and what is documented of them; and which operand of the `|`
-- of `Process` is evaluated first.
pub record Calls (W : Type 0) : Type 0 where
  pub epoll_ctl : Ctl
  pub close : ℕ → Bool
  pub shutdown : ℕ → ℕ → Option ℕ
  pub getsockopt : ℕ → SockOpt
  pub left_first : Bool
  pub kernel : Kernel W
  pub ctl_documented : Epoll.IsDocumented epoll_ctl
  pub tells : CanTell getsockopt
  pub closes : (fd : ℕ) → close fd ≡ true
  pub shuts : (fd how : ℕ) → (shutdown fd how ≡ none) ⊎ (shutdown fd how ≡ some 107)
  pub splice_documented : Transfer.IsDocumented kernel

-- What is still to be received is finite: `supply` bounds it.
pub record IsFinite {W : Type 0} (k : Kernel W) (supply : W → ℕ) : Type 0 where
  pub used :
      (fd n : ℕ) (w : W)
      → supply (k.splice_in fd n w).1 + length (taken (k.splice_in fd n w).0) ≤ supply w
  pub kept : (q : Bytes) (fd n : ℕ) (w : W) → supply (k.splice_out q fd n w).1 ≤ supply w

-- The pipe of the link `x`, which the link `y` feeds: it counts what it holds, and its ends are open
-- for as long as the links use them.
pub record Pipe (x y : Link) : Type 0 where
  pub sound : IsSound x.out
  pub fed : y.readable ≡ true → x.out.write_open ≡ true
  pub drawn : x.writable ≡ true → x.out.read_open ≡ true

-- A tunnel, of which the caller holds both links, with its two pipes.
pub record Flow (w : EventLoop Link) (t : ℕ) (order : List Ptr) (p q : Ptr) (a b : ℕ) : Type 0 where
  pub tunnel : Tunnel w t order p q (suc a) (suc b)
  pub there : Pipe (w.handlers p).derived (w.handlers q).derived
  pub back : Pipe (w.handlers q).derived (w.handlers p).derived

-- What can still happen on the way from `q` to `p`.
abbrev pub load : {W : Type 0} → (W → ℕ) → Ptr → Ptr → Net W → ℕ
load supply p q n =
    2 * supply n.kernel
    + (n.loop.handlers p).derived.out.size
    + num (n.loop.handlers q).derived.readable
    + num (n.loop.handlers p).derived.writable

-- What can still happen in both directions.
abbrev pub burden : {W : Type 0} → (W → ℕ) → Ptr → Ptr → Net W → ℕ
burden supply p q n =
    2 * supply n.kernel
    + (n.loop.handlers p).derived.out.size
    + (n.loop.handlers q).derived.out.size
    + num (n.loop.handlers p).derived.readable
    + num (n.loop.handlers p).derived.writable
    + num (n.loop.handlers q).derived.readable
    + num (n.loop.handlers q).derived.writable

-- What one half of a round comes to: the tunnel is one as before, and less is left to do if something
-- was done, unless the tunnel was torn down.
pub record Stepped {W : Type 0} (supply : W → ℕ) (n : Net W) (t : ℕ) (order : List Ptr) (p q : Ptr)
    (a b : ℕ) (r : Outcome (Half × Net W)) : Type 0 where
  pub half : Half
  pub after : Net W
  pub rest : List Ptr
  pub returns : r ≡ ok (half, after)
  pub flow : Flow after.loop t rest p q a b
  pub lower : half ≢ broken → num (is_io half) + load supply p q after ≤ load supply p q n
  pub no_more : burden supply p q after ≤ burden supply p q n
  pub same : SameElse n.loop after.loop order rest p q

pub SameElse-trans :
    {u v w : EventLoop Link} {xs ys zs : List Ptr} {p q : Ptr}
    → SameElse u v xs ys p q
    → SameElse v w ys zs p q
    → SameElse u w xs zs p q
SameElse-trans a b = record {
  members = λ r np nq. b.members r np nq ∙ a.members r np nq;
  handlers = λ r np nq. b.handlers r np nq ∙ a.handlers r np nq;
}

pub SameElse-refl : (w : EventLoop Link) (xs : List Ptr) (p q : Ptr) → SameElse w w xs xs p q
SameElse-refl w xs p q = record { members = λ r np nq. refl; handlers = λ r np nq. refl }

-- What is left of a tunnel that was torn down is one, with its pipes.
pub Torn-Flow :
    {w : EventLoop Link} {t : ℕ} {order : List Ptr} {p q : Ptr} {a b : ℕ}
    {r : Outcome (EventLoop Link)}
    → (s : Torn w t order p q (suc a) (suc b) r) → IsSound (w.handlers p).derived.out
    → IsSound (w.handlers q).derived.out
    → Flow s.after t s.rest p q a b
Torn-Flow {p} {q} s sound_p sound_q =
    let shut_p = closed-flags (s.after.handlers p).derived (sym s.tunnel.left.listed ∙ s.gone.0) in
    let shut_q = closed-flags (s.after.handlers q).derived (sym s.tunnel.right.listed ∙ s.gone.1) in
    record {
      tunnel = s.tunnel;
      there = record {
        sound = subst IsSound (sym s.outs.0) sound_p;
        fed = λ r. absurd (ground (arith, shut_q.0));
        drawn = λ r. absurd (ground (arith, shut_p.1));
      };
      back = record {
        sound = subst IsSound (sym s.outs.1) sound_q;
        fed = λ r. absurd (ground (arith, shut_p.0));
        drawn = λ r. absurd (ground (arith, shut_q.1));
      };
    }

-- A tunnel that was torn down has nothing left to do but for what its pipes hold.
pub Torn-burden :
    {W : Type 0} {w : EventLoop Link} {t : ℕ} {order : List Ptr} {p q : Ptr} {a b : ℕ}
    {r : Outcome (EventLoop Link)}
    → (s : Torn w t order p q (suc a) (suc b) r) → (supply : W → ℕ) (k : W)
    → burden supply p q (record { loop = s.after; kernel = k })
      ≡ 2 * supply k + (w.handlers p).derived.out.size + (w.handlers q).derived.out.size
Torn-burden {p} {q} s supply k =
    let shut_p = closed-flags (s.after.handlers p).derived (sym s.tunnel.left.listed ∙ s.gone.0) in
    let shut_q = closed-flags (s.after.handlers q).derived (sym s.tunnel.right.listed ∙ s.gone.1) in
    omega (
      arith,
      ap num shut_p.0,
      ap num shut_p.1,
      ap num shut_q.0,
      ap num shut_q.1,
      ap (λ (y : Buffer). y.size) s.outs.0,
      ap (λ (y : Buffer). y.size) s.outs.1,
    )
