-- ===== src/ThreadPool/Order.antt =====
-- The order in which src/thread_pool.cc runs what was scheduled.
use hcproxy.Common.{
  if_true, if_false, ℕ, ◌+◌, ◌≤◌, ◌<◌, ◌≡◌, refl, ap, subst, true, false, not, ◌&&◌, List, [], ◌∷◌,
  ◌++◌, arith, ltb, leb, leb→le, Bool-cases, inl, inr, ◌⊎◌,
}
use hcproxy.ThreadPool.{
  Work, earlier, Pool, push, schedule, Turn, leave, wait, run, sleep_until, next_of, next,
  some_work,
}

-- By time, and at one time by the order of scheduling.
abbrev pub Before : Work → Work → Type 0
Before w v = (w.t < v.t) ⊎ ((w.t ≡ v.t) × (w.idx < v.idx))

abbrev pub BeforeAll : Work → List Work → Type 0
BeforeAll w [] = Unit {0}
BeforeAll w (v ∷ vs) = Before w v × BeforeAll w vs

abbrev pub Sorted : List Work → Type 0
Sorted [] = Unit {0}
Sorted (w ∷ ws) = BeforeAll w ws × Sorted ws

-- Every index was given out already.
abbrev pub Known : ℕ → List Work → Type 0
Known i [] = Unit {0}
Known i (w ∷ ws) = (w.idx ≤ i) × Known i ws

pub record IsSound (p : Pool) : Type 0 where
  pub sorted : Sorted p.work
  pub known : Known p.last_idx p.work

-- One list is the other with `w` put in somewhere.
abbrev pub Inserted : Work → List Work → List Work → Type 0
Inserted w old new =
    (front : List Work) × (back : List Work) × (old ≡ front ++ back) × (new ≡ front ++ w ∷ back)

earlier-Before : (w v : Work) → earlier w v ≡ true → Before w v
unfolding earlier
earlier-Before w v h = elim (Bool-cases (ltb w.t v.t)) [
  | inl l ↦ inl (ground arith)
  | inr n ↦ inr (ground arith)
]

later-Before : (w v : Work) → v.idx < w.idx → earlier w v ≡ false → Before v w
unfolding earlier
later-Before w v i h = elim (Bool-cases (ltb v.t w.t)) [
  | inl l ↦ inl (ground arith)
  | inr n ↦ inr (ground arith)
]

Before-trans : (u v w : Work) → Before u v → Before v w → Before u w
Before-trans u v w a b = grind arith

BeforeAll-trans : (u v : Work) (ws : List Work) → Before u v → BeforeAll v ws → BeforeAll u ws
BeforeAll-trans u v [] b h = tt
BeforeAll-trans u v (w ∷ ws) b h = (Before-trans u v w b h.0, BeforeAll-trans u v ws b h.1)

BeforeAll-push :
    (v w : Work) (ws : List Work) → Before v w → BeforeAll v ws → BeforeAll v (push w ws)
unfolding push
BeforeAll-push v w [] b h = (b, tt)
BeforeAll-push v w (x ∷ ws) b h = elim (Bool-cases (earlier w x)) [
  | inl e ↦ rw e (b, h)
  | inr l ↦ rw l (h.0, BeforeAll-push v w ws b h.1)
]

push-Sorted :
    (i : ℕ) (w : Work) (ws : List Work) → i < w.idx → Known i ws → Sorted ws → Sorted (push w ws)
unfolding push
push-Sorted i w [] n k s = (tt, tt)
push-Sorted i w (v ∷ vs) n k s = elim (Bool-cases (earlier w v)) [
  | inl e ↦ let b = earlier-Before w v e in rw e ((b, BeforeAll-trans w v vs b s.0), s)
  | inr l ↦ rw l (
    BeforeAll-push v w vs (later-Before w v (omega (arith, k.0)) l) s.0,
    push-Sorted i w vs n k.1 s.1,
  )
]

push-Known :
    (i : ℕ) (w : Work) (ws : List Work) → w.idx ≤ i + 1 → Known i ws → Known (i + 1) (push w ws)
unfolding push
push-Known i w [] n k = (n, tt)
push-Known i w (v ∷ vs) n k = elim (Bool-cases (earlier w v)) [
  | inl e ↦ rw e (n, (omega (arith, k.0), Known-suc i vs k.1))
  | inr l ↦ rw l (omega (arith, k.0), push-Known i w vs n k.1)
]
  where
    Known-suc : (i : ℕ) (ws : List Work) → Known i ws → Known (i + 1) ws
    Known-suc i [] k = tt
    Known-suc i (w ∷ ws) k = (omega (arith, k.0), Known-suc i ws k.1)

push-Inserted : (w : Work) (ws : List Work) → Inserted w ws (push w ws)
unfolding push
push-Inserted w [] = ([], [], refl, refl)
push-Inserted w (v ∷ vs) = elim (Bool-cases (earlier w v)) [
  | inl e ↦ rw e ([], v ∷ vs, refl, refl)
  | inr l ↦
      let (front, back, old, new) = push-Inserted w vs in
      rw l (v ∷ front, back, ap (◌∷◌ v) old, ap (◌∷◌ v) new)
]

-- `Schedule` puts its work into the queue and keeps it in order, behind all work for the same time.
pub schedule-IsSound :
    (t f : ℕ) (p : Pool)
    → IsSound p
    → IsSound (schedule t f p).0
      × Inserted (record { t = t; idx = p.last_idx + 1; f = f }) p.work (schedule t f p).0.work
unfolding schedule
schedule-IsSound t f p s = (
  record {
    sorted = push-Sorted p.last_idx _ p.work (omega arith) s.known s.sorted;
    known = push-Known p.last_idx _ p.work (omega arith) s.known;
  },
  push-Inserted _ p.work,
)

-- What a round of `Next` comes to, by the queue, the clock and whether a thread sleeps.
pub data Taken (now : ℕ) (p : Pool) : Turn × Pool → Type 0 where
  leaves : p.exit ≡ true → Taken now p (leave, p)
  idles : p.exit ≡ false → p.work ≡ [] → Taken now p (wait, p)
  -- the work runs that is due and comes before all the rest
  runs :
      (w : Work) (rest : List Work)
      → p.exit ≡ false
      → p.work ≡ w ∷ rest
      → w.t ≤ now
      → BeforeAll w rest
      → IsSound (record p { work = rest })
      → Taken now p (run w (some_work rest && not p.have_sleeper), record p { work = rest })
  -- nothing is due, and a thread sleeps until something is
  stands_by :
      (w : Work) (rest : List Work)
      → p.exit ≡ false
      → p.work ≡ w ∷ rest
      → now < w.t
      → p.have_sleeper ≡ true
      → Taken now p (wait, p)
  -- nothing is due, and this thread sleeps until the first work is
  sleeps :
      (w : Work) (rest : List Work)
      → p.exit ≡ false
      → p.work ≡ w ∷ rest
      → now < w.t
      → p.have_sleeper ≡ false
      → Taken now p (sleep_until w.t, record p { have_sleeper = true })

module _ (now : ℕ) (p : Pool) (s : IsSound p) (e : p.exit ≡ false) where
  next_of-Taken : (ws : List Work) → p.work ≡ ws → Taken now p (next_of now p ws)
  unfolding next_of
  next_of-Taken [] h = idles e h
  next_of-Taken (w ∷ rest) h =
      let sorted = subst Sorted h s.sorted in
      let known = subst (Known p.last_idx) h s.known in
      elim (Bool-cases (leb w.t now)) [
        | inl due ↦ rw due (
            runs w rest e h (leb→le w.t now due) sorted.0
              (record { sorted = sorted.1; known = known.1 }))
        | inr early ↦ elim (Bool-cases p.have_sleeper) [
          | inl one ↦
              rw early
                (subst (Taken now p) (if_true _ _ one) (stands_by w rest e h (ground arith) one))
          | inr no_one ↦
              rw early (
                subst (Taken now p) (if_false _ _ no_one) (sleeps w rest e h (ground arith) no_one))
        ]
      ]

-- No work runs before its time, and none before work that is for an earlier time, or was scheduled
-- earlier for the same time. While the first work is not due, one thread sleeps until it is and the
-- others wait.
pub next-Taken : (now : ℕ) (p : Pool) → IsSound p → Taken now p (next now p)
unfolding next
next-Taken now p s = elim (Bool-cases p.exit) [
  | inl e ↦ subst (Taken now p) (if_true _ _ e) (leaves e)
  | inr e ↦ subst (Taken now p) (if_false _ _ e) (next_of-Taken now p s e p.work refl)
]
