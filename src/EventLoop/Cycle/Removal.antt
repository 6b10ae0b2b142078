-- ===== src/EventLoop/Cycle/Removal.antt =====
-- `Remove` of src/event_loop.cc in the midst of a round: the handling of one event may take any other
-- handler out of the loop.
use hcproxy.Common.{
  ℕ, ◌+◌, ◌≤◌, ◌<◌, ◌≡◌, ◌≢◌, ap, sym, ◌∙◌, subst, true, ◌++◌, arith, Outcome, ok, inl, inr,
  eq-cases, mem-split, ◌∈◌,
}
use hcproxy.NodeList.{Ptr, null}
use hcproxy.Epoll.{Ctl, IsDocumented}
use hcproxy.EventLoop.{Handler, EventLoop, remove}
use hcproxy.EventLoop.Invariant.{Inv}
use hcproxy.EventLoop.Remove.{self_out, remove-Inv, released_kept}
use hcproxy.EventLoop.Cycle.Events.{num, Keeps}

module _ {X : Type 0} (epoll_ctl : Ctl) (documented : IsDocumented epoll_ctl)
    (destroy : X → Outcome X) where
  module _ (w : EventLoop X) (p : Ptr) (now : ℕ) (held : Ptr → ℕ) (v : Keeps destroy w now held)
      (on : (w.handlers p).registered ≡ true) (set : p ≢ null) (x : X)
      (ends : destroy (w.handlers p).derived ≡ ok x) where
    is_in : p ∈ v.order
    is_in = ground (arith, v.inv.away p)

    -- A registered handler can be removed at any point of a round: the references that are held stay,
    -- and a handler of which one is held is not deleted.
    pub remove-Keeps :
        (u : EventLoop X) × (remove epoll_ctl destroy p w ≡ ok u) × Keeps destroy u now held
    remove-Keeps =
        let (xs, ys, s) = mem-split p v.order is_in in
        let inv = subst (Inv w now) s v.inv in
        let (u, done, after, refs, freed, at, others) =
          remove-Inv w p epoll_ctl documented destroy x ends xs ys inv set in
        let out = self_out w p xs ys w.expire inv in
        let off = after.away p out in
        (
          u,
          done,
          record {
            order = xs ++ ys;
            inv = after;
            counts = λ r. elim (eq-cases r p) [
              | inl e ↦
                  subst (λ y. held y + num (u.handlers y).registered ≤ (u.handlers y).ref_count)
                    (sym e) (omega (arith, v.counts p, ap num on, ap num off, refs))
              | inr ne ↦
                  subst (λ (h : Handler X). held r + num h.registered ≤ h.ref_count)
                    (sym (others r ne)) (v.counts r)
            ];
            alive = λ r h. elim (eq-cases r p) [
              | inl e ↦ (
                (v.alive r h).0,
                ap (λ y. (u.handlers y).freed) e
                    ∙ freed
                    ∙ ground (arith, v.counts p, ap num on, ap held e, h),
              )
              | inr ne ↦
                  ((v.alive r h).0, ap (λ (k : Handler X). k.freed) (others r ne) ∙ (v.alive r h).1)
            ];
            ends = λ r h gone. elim (eq-cases r p) [
              | inl e ↦
                  let two : 1 < (w.handlers p).ref_count =
                    omega (arith, v.counts p, ap num on, ap held e, h) in
                  (
                    x,
                    ap (λ y. destroy (u.handlers y).derived) e
                        ∙ ap (λ (k : Handler X). destroy k.derived) (at ∙ released_kept w p x two)
                        ∙ ends,
                  )
              | inr ne ↦
                  let (y, d) =
                    v.ends r h (sym (ap (λ (k : Handler X). k.registered) (others r ne)) ∙ gone) in
                  (y, ap (λ (k : Handler X). destroy k.derived) (others r ne) ∙ d)
            ];
          },
        )
