-- ===== src/Forwarder/Link/Sides.antt =====
-- What the two links of a tunnel of src/forwarder.cc have to do with the loop and with each other.
use hcproxy.Common.{ℕ, ◌+◌, ◌≡◌, ◌≢◌, sym, Bool, true, false, List, Outcome, ok, has}
use hcproxy.NodeList.{Ptr, null}
use hcproxy.EventLoop.{EventLoop}
use hcproxy.EventLoop.Invariant.{Inv}
use hcproxy.Forwarder.Link.{Link, is_open}

abbrev pub num : Bool → ℕ
num true = 1
num false = 0

-- The link `p` of a tunnel with `q`: it is in the loop, and its descriptor is open, exactly while it
-- is open, and its references are those of the loop, of the other link while that is open, and `held` more.
pub record Side (w : EventLoop Link) (order : List Ptr) (p q : Ptr) (held : ℕ) : Type 0 where
  pub is_set : p ≢ null
  pub alive : (w.handlers p).freed ≡ false
  pub joined : (w.handlers p).derived.other ≡ q
  pub listed : has p order ≡ is_open (w.handlers p).derived
  pub descriptor : (w.handlers p).derived.fd_open ≡ is_open (w.handlers p).derived
  pub counted :
      (w.handlers p).ref_count
      ≡ held + num (is_open (w.handlers p).derived) + num (is_open (w.handlers q).derived)

-- A tunnel between operations.
pub record Tunnel (w : EventLoop Link) (t : ℕ) (order : List Ptr) (p q : Ptr) (a b : ℕ)
    : Type 0 where
  pub inv : Inv w t order
  pub apart : p ≢ q
  pub left : Side w order p q a
  pub right : Side w order q p b

abbrev pub swap :
    {w : EventLoop Link} {t : ℕ} {order : List Ptr} {p q : Ptr} {a b : ℕ}
    → Tunnel w t order p q a b
    → Tunnel w t order q p b a
swap u = record { inv = u.inv; apart = λ e. u.apart (sym e); left = u.right; right = u.left }

-- The rest of the loop is as it was.
pub record SameElse (w u : EventLoop Link) (order rest : List Ptr) (p q : Ptr) : Type 0 where
  pub members : (r : Ptr) → r ≢ p → r ≢ q → has r rest ≡ has r order
  pub handlers : (r : Ptr) → r ≢ p → r ≢ q → u.handlers r ≡ w.handlers r

-- What it comes to that `p` is closed.
pub record Closed (w : EventLoop Link) (t : ℕ) (order : List Ptr) (p q : Ptr) (a b : ℕ)
    (r : Outcome (EventLoop Link)) : Type 0 where
  pub after : EventLoop Link
  pub rest : List Ptr
  pub returns : r ≡ ok after
  pub tunnel : Tunnel after t rest p q a b
  pub shut : is_open (after.handlers p).derived ≡ false
  pub gone : (has p rest ≡ false) × ((after.handlers p).derived.fd_open ≡ false)
  pub unchanged : is_open (w.handlers p).derived ≡ false → after ≡ w
  pub spared : (after.handlers q).derived ≡ (w.handlers q).derived
  pub out_kept : (after.handlers p).derived.out ≡ (w.handlers p).derived.out
  pub same : SameElse w after order rest p q
