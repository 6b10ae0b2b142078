-- ===== src/ThreadPool.antt =====
-- `Schedule` and `Next` of src/thread_pool.cc, each part between two changes of the lock as a function.
-- A function to run is known by a number. The priority queue is a list with the top in front.
pub mod Order
use hcproxy.Common.{
  ℕ, ◌+◌, Bool, true, false, not, ◌&&◌, ◌||◌, List, [], ◌∷◌, Outcome, ok, ◌>>◌, check, ltb, leb,
  ◌==◌, if◌then◌else◌,
}

-- `ThreadPool::Work`
pub record Work : Type 0 where
  pub t : ℕ
  pub idx : ℕ
  pub f : ℕ

-- `operator<` with its sides exchanged: the first is nearer to the top
unfoldable pub earlier : Work → Work → Bool
earlier w v = ltb w.t v.t || (w.t == v.t && ltb w.idx v.idx)

pub record Pool : Type 0 where
  pub work : List Work
  pub last_idx : ℕ
  pub exit : Bool
  pub have_sleeper : Bool

-- `push` of the priority queue
unfoldable pub push : Work → List Work → List Work
push w [] = w ∷ []
push w (v ∷ vs) = let rest = push w vs in if earlier w v then w ∷ v ∷ vs else v ∷ rest

-- which condition variable is notified
pub data Wake : Type 0 where
  nobody sleeper worker : Wake

abbrev pub top_is : ℕ → List Work → Bool
top_is i [] = false
top_is i (w ∷ ws) = w.idx == i

unfoldable pub schedule : (t f : ℕ) → Pool → Pool × Wake
unfolding push
schedule t f p =
    let i = p.last_idx + 1 in
    let work = push (record { t = t; idx = i; f = f }) p.work in
    (
      record p { work = work; last_idx = i },
      if top_is i work then (if p.have_sleeper then sleeper else worker) else nobody,
    )

-- What a thread does after one round of the loop of `Next`: it ends, waits for a notification, runs
-- the work that it has taken, after a notification if so said, or sleeps until a time.
pub data Turn : Type 0 where
  leave : Turn
  wait : Turn
  run : (w : Work) → (notify : Bool) → Turn
  sleep_until : (t : ℕ) → Turn

abbrev pub some_work : List Work → Bool
some_work [] = false
some_work _ = true

-- the round, on the content of the queue
unfoldable pub next_of : (now : ℕ) → Pool → List Work → Turn × Pool
next_of now p [] = (wait, p)
next_of now p (top ∷ rest) =
    if leb top.t now
    then (run top (some_work rest && not p.have_sleeper), record p { work = rest })
    else if p.have_sleeper
    then (wait, p)
    else (sleep_until top.t, record p { have_sleeper = true })

unfoldable pub next : (now : ℕ) → Pool → Turn × Pool
unfolding next_of
next now p = if p.exit then (leave, p) else next_of now p p.work

-- what follows `wait_until`
unfoldable pub woken : Pool → Outcome Pool
woken p = do check p.have_sleeper; ok (record p { have_sleeper = false })
