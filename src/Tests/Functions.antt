-- ===== src/Tests/Functions.antt =====
-- Three functions that other threads schedule in an event loop (src/event_loop.cc). A function is a
-- number, and calling it puts it behind those called before.
use hcproxy.Common.{
  ℕ, ◌≡◌, refl, none, some, List, [], ◌∷◌, ◌++◌, arith, Outcome, ok, ◌>>=◌, length, take, drop,
  ◌==◌, if◌then◌else◌,
}
use hcproxy.EventLoop.Functions.{PipeKernel, Functions, to_bytes, pop_func}
use hcproxy.EventLoop.Functions.Queue.{IsDocumented, Waiting, addresses, Queued}
use hcproxy.EventLoop.Functions.Refines.{pop_func-Queued}
use hcproxy.EventLoop.Functions.Order.{schedules, pops, schedules-pops}

abbrev stream : PipeKernel
stream = record {
  write = λ bytes q. (length bytes, q ++ bytes);
  read = λ n q. (take n q, drop n q);
}

stream-IsDocumented : IsDocumented stream
stream-IsDocumented = record { writes = λ bytes q h. refl; reads = λ n q h. refl }

abbrev note : ℕ → List ℕ → List ℕ
note f log = log ++ f ∷ []

abbrev idle : Functions ℕ
idle = record { heap = λ p. none; pipe = [] }

abbrev three : Waiting ℕ
three = (65536, 7) ∷ (4096, 8) ∷ (300, 9) ∷ []

idle-Queued : Queued idle []
unfolding addresses to_bytes
idle-Queued = record { piped = refl; stored = tt; distinct = tt }

schedules-pops_example :
    (u : Functions ℕ) × ((schedules stream three idle >>= λ s. pops stream note 3 (s, []))
      ≡ ok (u, 7 ∷ 8 ∷ 9 ∷ []))
    × Queued u []
schedules-pops_example = schedules-pops stream stream-IsDocumented note three idle [] idle-Queued (
  refl,
  omega arith,
  (omega arith, (omega arith, tt)),
  (refl, omega arith, (omega arith, tt), (refl, omega arith, tt, tt)),
)

-- the state in which two of them wait
abbrev busy : Functions ℕ
busy = record {
  heap = λ p. if p == 65536 then some 7 else if p == 300 then some 9 else none;
  pipe = 0 ∷ 0 ∷ 1 ∷ 0 ∷ 0 ∷ 0 ∷ 0 ∷ 0 ∷ 44 ∷ 1 ∷ 0 ∷ 0 ∷ 0 ∷ 0 ∷ 0 ∷ 0 ∷ [];
}

busy-Queued : Queued busy ((65536, 7) ∷ (300, 9) ∷ [])
unfolding addresses to_bytes
busy-Queued = record {
  piped = refl;
  stored = (refl, omega arith, (refl, omega arith, tt));
  distinct = ((omega arith, tt), (tt, tt));
}

abbrev call_only : ℕ → Functions ℕ × List ℕ → Outcome (Functions ℕ × List ℕ)
call_only f (s, w) = ok (s, note f w)

pop_func-Queued_example :
    (u : Functions ℕ) × (pop_func stream call_only (busy, []) ≡ ok (u, 7 ∷ []))
    × Queued u ((300, 9) ∷ [])
    × (u.heap 65536 ≡ none)
pop_func-Queued_example =
    pop_func-Queued stream stream-IsDocumented call_only busy [] ((300, 9) ∷ []) 65536 7 busy-Queued
      (record { heap = busy.heap; pipe = addresses ((300, 9) ∷ []) }) (7 ∷ []) [] (λ r. (refl, r))
