-- ===== src/Epoll/Room.antt =====
-- `EPoll::Wait` of src/epoll.cc: the room for events, and the timeout.
use hcproxy.Common.{ℕ, ◌+◌, ◌*◌, ◌/◌, ◌≤◌, ◌<◌, ◌≡◌, ap, ◌∙◌, Option, some, arith, Outcome, ok}
use hcproxy.Epoll.{EPoll, resize, answered, make_room, wait_millis, wait}

-- What a `vector` guarantees of its growth, and epoll_wait(2) of its answer: it succeeds where there is
-- room for an event, if no signal handler interrupts it, and reports no more events than there is room
-- for.
pub record CanWait (grow : ℕ → ℕ → ℕ) (epoll_wait : ℕ → Option ℕ → Option ℕ) : Type 0 where
  pub grows : (room n : ℕ) → n ≤ grow room n
  pub succeeds :
      (slots : ℕ) (ms : Option ℕ)
      → 0 < slots
      → (n : ℕ) × (epoll_wait slots ms ≡ some n) × (n ≤ slots)

module _ (grow : ℕ → ℕ → ℕ) (e : EPoll) where
  -- There is room for an event of each descriptor, and `slots` is no more than the capacity.
  make_room-enough :
      ((room n : ℕ) → n ≤ grow room n)
      → e.slots ≤ e.room
      → (e.total_events ≤ (make_room grow e).slots)
        × ((make_room grow e).slots ≤ (make_room grow e).room)
        × ((make_room grow e).total_events ≡ e.total_events)
        × ((make_room grow e).calls ≡ e.calls)
  unfolding make_room resize
  make_room-enough grows fits = ground (arith, grows e.room e.total_events, fits)

-- A timeout in milliseconds that is no earlier than the one asked for, and less than one later.
abbrev pub RoundsUp : ℕ → ℕ → Type 0
RoundsUp timeout ms = (timeout ≤ 1000000 * ms) × (1000000 * ms < timeout + 1000000)

wait_millis-RoundsUp :
    (timeout : ℕ)
    → timeout ≤ 1000000 * 2147483647
    → (ms : ℕ) × (wait_millis (some timeout) ≡ some ms) × RoundsUp timeout ms
unfolding wait_millis
wait_millis-RoundsUp timeout h =
    ((timeout + 999999) / 1000000, ground arith, (omega arith, omega arith))

-- What `Wait` comes to.
pub record Waited (e : EPoll) (timeout : ℕ) (epoll_wait : ℕ → Option ℕ → Option ℕ)
    (r : Outcome EPoll) : Type 0 where
  pub after : EPoll
  pub returns : r ≡ ok after
  pub millis : ℕ
  pub rounds_up : RoundsUp timeout millis
  pub asked : epoll_wait after.slots (some millis) ≡ some after.ready_events
  pub enough : e.total_events ≤ after.slots
  pub within : (after.ready_events ≤ after.slots) × (after.slots ≤ after.room)
  pub same : (after.calls ≡ e.calls) × (after.total_events ≡ e.total_events)

module _ (grow : ℕ → ℕ → ℕ) (epoll_wait : ℕ → Option ℕ → Option ℕ) (can : CanWait grow epoll_wait)
    (e : EPoll) (timeout : ℕ) where
  wait-returns :
      (ms n : ℕ)
      → wait_millis (some timeout) ≡ some ms
      → epoll_wait (make_room grow e).slots (some ms) ≡ some n
      → wait grow epoll_wait (some timeout) e ≡ ok (record (make_room grow e) { ready_events = n })
  unfolding wait
  wait-returns ms n is answer =
      ap (λ (x : Option ℕ). answered (make_room grow e) (epoll_wait (make_room grow e).slots x)) is
      ∙ ap (answered (make_room grow e)) answer

  -- `Wait` with a timeout whose milliseconds are an `int`, where something is watched: `epoll_wait` is
  -- given that timeout, rounded up, and room for an event of each descriptor that is watched, and the
  -- events that it reports lie within the room. What is watched is not changed.
  pub wait-Waited :
      0 < e.total_events
      → e.slots ≤ e.room
      → timeout ≤ 1000000 * 2147483647
      → Waited e timeout epoll_wait (wait grow epoll_wait (some timeout) e)
  wait-Waited some_watched fits h =
      let m = make_room-enough grow e can.grows fits in
      let (ms, is, up) = wait_millis-RoundsUp timeout h in
      let (n, answer, few) = can.succeeds (make_room grow e).slots (some ms) (omega (arith, m.0)) in
      record {
        after = record (make_room grow e) { ready_events = n };
        returns = wait-returns ms n is answer;
        millis = ms;
        rounds_up = up;
        asked = answer;
        enough = m.0;
        within = (few, m.1);
        same = (m.3, m.2);
      }
