-- ===== src/Forwarder/Link/Forward.antt =====
-- `ForwardFromOther` of src/forwarder.cc, the loop over its two halves.
use hcproxy.Common.{
  ℕ, zero, suc, ◌+◌, ◌≤◌, ◌<◌, ◌≡◌, ◌≢◌, refl, ap, ◌∙◌, Bool, Bool-cases, true, false, ◌||◌, List,
  arith, Outcome, ok, inl, inr, ◌⊎◌,
}
use hcproxy.NodeList.{Ptr}
use hcproxy.Forwarder.Link.{
  Net, Half, io, idle, broken, is_io, fill, drain, forward_loop, forward_from_other,
}
use hcproxy.Forwarder.Link.Sides.{num, SameElse}
use hcproxy.Forwarder.Link.Flow.{Calls, IsFinite, Flow, load, burden, Stepped, SameElse-trans}
use hcproxy.Forwarder.Link.Fill.{fill-Stepped}
use hcproxy.Forwarder.Link.Drain.{drain-Stepped}

-- What a run of `ForwardFromOther` comes to.
pub record Forwarded {W : Type 0} (supply : W → ℕ) (n : Net W) (t : ℕ) (order : List Ptr)
    (p q : Ptr) (a b : ℕ) (r : Outcome (Bool × Net W)) : Type 0 where
  pub result : Bool
  pub after : Net W
  pub rest : List Ptr
  pub returns : r ≡ ok (result, after)
  pub flow : Flow after.loop t rest p q a b
  pub no_more : burden supply p q after ≤ burden supply p q n
  pub same : SameElse n.loop after.loop order rest p q

broken-cases : (h : Half) → (h ≡ broken) ⊎ (h ≢ broken)
broken-cases io = inr (λ e. cc)
broken-cases idle = inr (λ e. cc)
broken-cases broken = inl refl

module _ {W : Type 0} (c : Calls W) (supply : W → ℕ) (finite : IsFinite c.kernel supply) (t : ℕ)
    (p q : Ptr) (a b : ℕ) where
  loop : ℕ → Bool → Net W → Outcome (Bool × Net W)
  loop fuel res n = forward_loop c.epoll_ctl c.close c.shutdown c.kernel fuel p res n

  -- the loop by what its halves return
  loop-first :
      (fuel : ℕ) (res : Bool) (n m : Net W)
      → fill c.epoll_ctl c.close c.shutdown c.kernel p n ≡ ok (broken, m)
      → loop (suc fuel) res n ≡ ok (false, m)
  unfolding loop forward_loop
  loop-first fuel res n m e = rw e refl

  loop-second :
      (fuel : ℕ) (res : Bool) (n m l : Net W) (x : Half)
      → x ≢ broken
      → fill c.epoll_ctl c.close c.shutdown c.kernel p n ≡ ok (x, m)
      → drain c.epoll_ctl c.close c.shutdown c.kernel p m ≡ ok (broken, l)
      → loop (suc fuel) res n ≡ ok (false, l)
  unfolding loop forward_loop
  loop-second fuel res n m l io ne e f = rw (e, f) refl
  loop-second fuel res n m l idle ne e f = rw (e, f) refl
  loop-second fuel res n m l broken ne e f = absurd (ne refl)

  loop-both :
      (fuel : ℕ) (res : Bool) (n m l : Net W) (x y : Half)
      → x ≢ broken
      → y ≢ broken
      → fill c.epoll_ctl c.close c.shutdown c.kernel p n ≡ ok (x, m)
      → drain c.epoll_ctl c.close c.shutdown c.kernel p m ≡ ok (y, l)
      → loop (suc fuel) res n
        ≡ elim (is_io x || is_io y) [ true ↦ loop fuel true l | false ↦ ok (res, l) ]
  unfolding loop forward_loop
  loop-both fuel res n m l io io nx ny e f = rw (e, f) refl
  loop-both fuel res n m l io idle nx ny e f = rw (e, f) refl
  loop-both fuel res n m l idle io nx ny e f = rw (e, f) refl
  loop-both fuel res n m l idle idle nx ny e f = rw (e, f) refl
  loop-both fuel res n m l broken y nx ny e f = absurd (nx refl)
  loop-both fuel res n m l io broken nx ny e f = absurd (ny refl)
  loop-both fuel res n m l idle broken nx ny e f = absurd (ny refl)

  module _ (fuel : ℕ) (res : Bool) (n : Net W) {order : List Ptr}
      (f : Stepped supply n t order p q a b (fill c.epoll_ctl c.close c.shutdown c.kernel p n))
      (d : Stepped supply f.after t f.rest p q a b
        (drain c.epoll_ctl c.close c.shutdown c.kernel p f.after)) where
    stop_first : f.half ≡ broken → Forwarded supply n t order p q a b (loop (suc fuel) res n)
    stop_first e = record {
      result = false;
      after = f.after;
      rest = f.rest;
      returns = loop-first fuel res n f.after (f.returns ∙ ap (λ h. ok (h, f.after)) e);
      flow = f.flow;
      no_more = f.no_more;
      same = f.same;
    }

    stop_second :
        f.half ≢ broken
        → d.half ≡ broken
        → Forwarded supply n t order p q a b (loop (suc fuel) res n)
    stop_second ne e = record {
      result = false;
      after = d.after;
      rest = d.rest;
      returns =
          loop-second fuel res n f.after d.after f.half ne f.returns
            (d.returns ∙ ap (λ h. ok (h, d.after)) e);
      flow = d.flow;
      no_more = omega (arith, d.no_more, f.no_more);
      same = SameElse-trans f.same d.same;
    }

    module _ (nf : f.half ≢ broken) (nd : d.half ≢ broken) where
      stop_idle :
          (is_io f.half || is_io d.half) ≡ false
          → Forwarded supply n t order p q a b (loop (suc fuel) res n)
      stop_idle e = record {
        result = res;
        after = d.after;
        rest = d.rest;
        returns =
            loop-both fuel res n f.after d.after f.half d.half nf nd f.returns d.returns
            ∙ ap (λ x. elim x [ true ↦ loop fuel true d.after | false ↦ ok (res, d.after) ]) e;
        flow = d.flow;
        no_more = omega (arith, d.no_more, f.no_more);
        same = SameElse-trans f.same d.same;
      }

      go_on :
          (is_io f.half || is_io d.half) ≡ true
          → Forwarded supply d.after t d.rest p q a b (loop fuel true d.after)
          → Forwarded supply n t order p q a b (loop (suc fuel) res n)
      go_on e r = record {
        result = r.result;
        after = r.after;
        rest = r.rest;
        returns =
            loop-both fuel res n f.after d.after f.half d.half nf nd f.returns d.returns
            ∙ ap (λ x. elim x [ true ↦ loop fuel true d.after | false ↦ ok (res, d.after) ]) e
            ∙ r.returns;
        flow = r.flow;
        no_more = omega (arith, r.no_more, d.no_more, f.no_more);
        same = SameElse-trans f.same (SameElse-trans d.same r.same);
      }

      less_left :
          (is_io f.half || is_io d.half) ≡ true → load supply p q d.after < load supply p q n
      less_left e = omega (arith, f.lower nf, d.lower nd, io_either f.half d.half e)
        where
          io_either : (x y : Half) → (is_io x || is_io y) ≡ true → 1 ≤ num (is_io x) + num (is_io y)
          io_either io y h = omega arith
          io_either idle io h = omega arith
          io_either idle idle h = cc
          io_either idle broken h = cc
          io_either broken io h = omega arith
          io_either broken idle h = cc
          io_either broken broken h = cc

  loop-Forwarded :
      (fuel : ℕ) (res : Bool) (n : Net W) {order : List Ptr}
      → Flow n.loop t order p q a b
      → load supply p q n < fuel
      → Forwarded supply n t order p q a b (loop fuel res n)
  loop-Forwarded zero res n v enough = absurd (omega arith)
  loop-Forwarded (suc fuel) res n {order} v enough =
      let f = fill-Stepped c supply finite n t order p q a b v in
      let d = drain-Stepped c supply finite f.after t f.rest p q a b f.flow in
      elim (broken-cases f.half) [
        | inl e ↦ stop_first fuel res n f d e
        | inr nf ↦ elim (broken-cases d.half) [
          | inl e ↦ stop_second fuel res n f d nf e
          | inr nd ↦ elim (Bool-cases (is_io f.half || is_io d.half)) [
            | inr e ↦ stop_idle fuel res n f d nf nd e
            | inl e ↦ go_on fuel res n f d nf nd e (
                loop-Forwarded fuel true d.after d.flow
                  (omega (arith, less_left fuel res n f d nf nd e)))
          ]
        ]
      ]

  -- `ForwardFromOther` ends, given that what is still to be received is finite: its rounds are no more
  -- than twice those bytes, the bytes in the pipe and the two directions that can be closed, and one.
  -- It passes all its checks, leaves a tunnel with sound pipes, open or torn down, and nothing else in
  -- the loop is changed.
  pub forward_from_other-Forwarded :
      (fuel : ℕ) (n : Net W) {order : List Ptr}
      → Flow n.loop t order p q a b
      → load supply p q n < fuel
      → Forwarded supply n t order p q a b
          (forward_from_other c.epoll_ctl c.close c.shutdown c.kernel fuel p n)
  unfolding forward_from_other loop
  forward_from_other-Forwarded fuel n v enough = loop-Forwarded fuel false n v enough
