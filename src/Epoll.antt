-- ===== src/Epoll.antt =====
-- `class EPoll` of src/epoll.h and src/epoll.cc. The kernel's part, `epoll_ctl`, is a parameter: it
-- answers to a call by the calls before it, the newest first, and `true` stands for its result 0.
pub mod Room
use hcproxy.Common.{
  ℕ, ◌≡◌, ◌+◌, ◌-◌, ◌/◌, ◌%◌, ◌^◌, Bool, true, false, Option, none, some, List, [], ◌∷◌, Outcome,
  ok, ◌>>=◌, ◌>>◌, check, ltb, ◌==◌, if◌then◌else◌,
}

-- the second argument of `epoll_ctl`
pub data CtlOp : Type 0 where
  add modify remove : CtlOp

pub record CtlCall : Type 0 where
  pub op : CtlOp
  pub fd : ℕ
  pub events : ℕ
  pub handler : ℕ

abbrev pub Ctl : Type 0
Ctl = List CtlCall → CtlCall → Bool

-- `events_.size()` and `events_.capacity()` are `slots` and `room`; `calls` is what was asked of
-- `epoll_ctl`, the newest call first.
pub record EPoll : Type 0 where
  pub calls : List CtlCall
  pub slots : ℕ
  pub room : ℕ
  pub total_events : ℕ
  pub ready_events : ℕ

abbrev call : CtlOp → ℕ → ℕ → ℕ → CtlCall
call op fd events handler = record { op = op; fd = fd; events = events; handler = handler }

module _ (epoll_ctl : Ctl) where
  pub control : CtlCall → EPoll → Outcome EPoll
  control c e = do check (epoll_ctl e.calls c); ok (record e { calls = c ∷ e.calls })

  unfoldable pub epoll_add : ℕ → ℕ → ℕ → EPoll → Outcome EPoll
  unfolding control
  epoll_add fd events handler e = do
    e ← control (call add fd events handler) e
    ok (record e { total_events = e.total_events + 1 })

  unfoldable pub epoll_remove : ℕ → EPoll → Outcome EPoll
  unfolding control
  epoll_remove fd e = do
    check (ltb 0 e.total_events)
    e ← control (call remove fd 0 0) e
    ok (record e { total_events = e.total_events - 1 })

  unfoldable pub epoll_modify : ℕ → ℕ → ℕ → EPoll → Outcome EPoll
  unfolding control
  epoll_modify fd events handler e = do
    check (ltb 0 e.total_events)
    control (call modify fd events handler) e

-- `vector::resize` to `n`: the capacity grows by `grow` if it has to
module _ (grow : ℕ → ℕ → ℕ) where
  unfoldable pub resize : ℕ → EPoll → EPoll
  resize n e = record e { slots = n; room = if ltb e.room n then grow e.room n else e.room }

  -- the first statement of `EPoll::Wait`
  unfoldable pub make_room : EPoll → EPoll
  unfolding resize
  make_room e =
      if ltb e.slots e.total_events then (let e = resize e.total_events e in resize e.room e) else e

abbrev nanos_per_milli : ℕ
nanos_per_milli = 1000000

-- the timeout that `epoll_wait` is given: whole milliseconds, rounded up, as an `int`, and no less than
-- 0; `none` stands for -1
unfoldable pub wait_millis : Option ℕ → Option ℕ
wait_millis none = none
wait_millis (some timeout) =
    let ms = ((timeout + 999999) / nanos_per_milli) % 2 ^ 32 in
    some (if ltb ms (2 ^ 31) then ms else 0)

-- `CHECK((ready_events_ = …) >= 0)`
abbrev pub answered : EPoll → Option ℕ → Outcome EPoll
answered e none = Outcome.fatal
answered e (some n) = ok (record e { ready_events = n })

-- `EPoll::Wait`, where `epoll_wait` is a parameter that is given the number of slots and the
-- timeout, and answers with the number of ready events, or `none` for -1.
unfoldable pub wait : (ℕ → ℕ → ℕ) → (ℕ → Option ℕ → Option ℕ) → Option ℕ → EPoll → Outcome EPoll
unfolding make_room wait_millis
wait grow epoll_wait timeout e =
    let e = make_room grow e in answered e (epoll_wait e.slots (wait_millis timeout))

-- Whether the kernel watches a descriptor, by the calls that succeeded.
abbrev pub watched : List CtlCall → ℕ → Bool
watched [] fd = false
watched (c ∷ cs) fd =
    if c.fd == fd
    then elim c.op [ add ↦ true | modify ↦ watched cs fd | remove ↦ false ]
    else watched cs fd

-- What epoll_ctl(2) documents: a descriptor is added if it is not watched yet, and changed or
-- removed if it is.
abbrev pub allows : Ctl
allows cs c = elim c.op [
  | add ↦ (if watched cs c.fd then false else true)
  | modify ↦ watched cs c.fd
  | remove ↦ watched cs c.fd
]

-- The kernel obeys that documentation.
pub record IsDocumented (epoll_ctl : Ctl) : Type 0 where
  pub succeeds : (cs : List CtlCall) (c : CtlCall) → allows cs c ≡ true → epoll_ctl cs c ≡ true
