-- ===== src/Tests/Schedules.antt =====
-- The queue of src/thread_pool.cc with two works for one time and one for an earlier time.
use hcproxy.Common.{ℕ, refl, false, [], ◌∷◌, arith, inl, inr}
use hcproxy.ThreadPool.{Work, Pool, schedule, next}
use hcproxy.ThreadPool.Order.{IsSound, Inserted, Taken, schedule-IsSound, next-Taken}

abbrev work : ℕ → ℕ → Work
work t idx = record { t = t; idx = idx; f = idx }

abbrev pool : Pool
pool = record {
  work = work 5 3 ∷ work 7 1 ∷ work 7 2 ∷ [];
  last_idx = 3;
  exit = false;
  have_sleeper = false;
}

pool-IsSound : IsSound pool
pool-IsSound = record {
  sorted =
      ((inl (omega arith), (inl (omega arith), tt)), ((inr (refl, omega arith), tt), (tt, tt)));
  known = (omega arith, (omega arith, (omega arith, tt)));
}

schedule-IsSound_example :
    IsSound (schedule 7 8 pool).0
    × Inserted (record { t = 7; idx = 4; f = 8 }) pool.work (schedule 7 8 pool).0.work
schedule-IsSound_example = schedule-IsSound 7 8 pool pool-IsSound

next-Taken_example : Taken 6 pool (next 6 pool)
next-Taken_example = next-Taken 6 pool pool-IsSound
