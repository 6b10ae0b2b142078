-- ===== src/EventLoop/Functions/Order.antt =====
-- Several calls of `Schedule`, and then of `PopFunc` (src/event_loop.cc).
use hcproxy.Common.{
  ℕ, zero, suc, ◌^◌, ◌<◌, ◌≡◌, refl, sym, false, Option, none, some, [], ◌∷◌, ◌++◌, append-nil,
  append_assoc, arith, Outcome, ok, ◌>>=◌, length, subst,
}
use hcproxy.NodeList.{Ptr, update}
use hcproxy.EventLoop.Functions.{PipeKernel, Functions, pointer_size, schedule, pop_func}
use hcproxy.EventLoop.Functions.Queue.{IsDocumented, Waiting, addresses, Apart, Queued, Running}
use hcproxy.EventLoop.Functions.Refines.{schedule-Queued, pop_func-Queued}

module _ {F : Type 0} where
  -- objects at addresses that are pointers, are free, and differ
  abbrev pub Free : (Ptr → Option F) → Waiting F → Type 0
  Free heap [] = Unit {0}
  Free heap ((p, f) ∷ q) = (heap p ≡ none) × (p < 256 ^ pointer_size) × Apart p q × Free heap q

  Free-update :
      (heap : Ptr → Option F) (p : Ptr) (v : Option F) (q : Waiting F)
      → Apart p q
      → Free heap q
      → Free (update heap p v) q
  Free-update heap p v [] a h = tt
  Free-update heap p v ((r, g) ∷ q) a h =
      let ne = a.0 in let at = h.0 in (ground arith, h.1, h.2, Free-update heap p v q a.1 h.3)

module _ {F : Type 0} (k : PipeKernel) where
  -- one call of `Schedule` after the other
  unfoldable pub schedules : Waiting F → Functions F → Outcome (Functions F)
  schedules [] s = ok s
  schedules ((p, f) ∷ q) s = do s ← schedule k false p (some f) s; schedules q s

  module _ {L : Type 0} (act : F → L → L) where
    abbrev call_only : F → Functions F × L → Outcome (Functions F × L)
    call_only f (s, w) = ok (s, act f w)

    -- so many calls of `PopFunc`
    unfoldable pub pops : ℕ → Functions F × L → Outcome (Functions F × L)
    pops zero s = ok s
    pops (suc n) s = do s ← pop_func k call_only s; pops n s

    -- the functions of a queue, called from the first to the last
    abbrev pub act_all : Waiting F → L → L
    act_all [] w = w
    act_all ((p, f) ∷ q) w = act_all q (act f w)

module _ {F : Type 0} (k : PipeKernel) (documented : IsDocumented k) where
  schedules-Queued :
      (r q : Waiting F) (s : Functions F)
      → Queued s q
      → Free s.heap r
      → (u : Functions F) × (schedules k r s ≡ ok u) × Queued u (q ++ r)
  unfolding schedules
  schedules-Queued [] q s v h = (s, refl, subst (Queued s) (sym (append-nil q)) v)
  schedules-Queued ((p, f) ∷ r) q s v h =
      let (u, e, x, heap) = schedule-Queued k documented s q p f v h.0 h.1 in
      let (z, d, y) = schedules-Queued r (q ++ (p, f) ∷ []) u x (
        subst (λ (g : Ptr → Option F). Free g r) (sym heap)
          (Free-update s.heap p (some f) r h.2 h.3)) in
      (z, rw e d, subst (Queued z) (append_assoc q ((p, f) ∷ []) r) y)

  module _ {L : Type 0} (act : F → L → L) where
    pops-Queued :
        (q : Waiting F) (s : Functions F) (w : L)
        → Queued s q
        → (u : Functions F) × (pops k act (length q) (s, w) ≡ ok (u, act_all k act q w))
          × Queued u []
    unfolding pops
    pops-Queued [] s w v = (s, refl, v)
    pops-Queued ((p, f) ∷ q) s w v =
        let (u, e, x, gone) =
          pop_func-Queued k documented (call_only k act) s w q p f v
            (record { heap = s.heap; pipe = addresses q }) (act f w) []
            (λ r. (refl, subst (Running _ p f) (sym (append-nil q)) r)) in
        let (z, d, y) = pops-Queued q u (act f w) (subst (Queued u) (append-nil q) x) in
        (z, rw e d, y)

    -- Functions that other threads schedule in turn, while none waits, are called by as many `PopFunc`
    -- in that order, each once, and then none waits.
    pub schedules-pops :
        (q : Waiting F) (s : Functions F) (w : L)
        → Queued s []
        → Free s.heap q
        → (u : Functions F) × ((schedules k q s >>= λ s. pops k act (length q) (s, w))
            ≡ ok (u, act_all k act q w))
          × Queued u []
    schedules-pops q s w v h =
        let (u, e, x) = schedules-Queued q [] s v h in
        let (z, d, y) = pops-Queued q u w x in (z, rw e d, y)
