-- ===== src/Tests/Rounds.antt =====
-- A round of the loop of src/event_loop.cc in which two handlers and the pipe have an event, and
-- the first of them takes the second one out of the loop.
use hcproxy.Common.{
  ℕ, ◌*◌, max, Option, none, some, List, [], ◌∷◌, arith, ok, Outcome, ◌==◌, if◌then◌else◌,
}
use hcproxy.NodeList.{Ptr}
use hcproxy.Bits.{epoll_in, epoll_out}
use hcproxy.Epoll.{allows, EPoll, wait}
use hcproxy.Epoll.Room.{CanWait, Waited, wait-Waited}
use hcproxy.EventLoop.{EventLoop, remove}
use hcproxy.EventLoop.Cycle.{Callbacks}
use hcproxy.Connector.{ConnectHandler, destroy}

abbrev events : List (Ptr × ℕ)
events = (1, epoll_out) ∷ (0, epoll_in) ∷ (2, epoll_out) ∷ []

-- takes the second handler out of the loop if it is in it
abbrev remove_second : EventLoop ConnectHandler → Outcome (EventLoop ConnectHandler)
remove_second w = if (w.handlers 2).registered then remove allows destroy 2 w else ok w

-- handlers whose event does so
abbrev removing : Callbacks ConnectHandler
removing = record {
  on_event = λ p events w. remove_second w;
  on_timeout = λ p w. ok w;
  pop_func = ok;
  destroy = destroy;
}

-- a kernel with two events ready, and a vector that doubles
abbrev ready : ℕ → Option ℕ → Option ℕ
ready slots ms = if slots == 0 then none else some (if slots == 1 then 1 else 2)

abbrev doubled : ℕ → ℕ → ℕ
doubled room n = max n (2 * room)

ready-CanWait : CanWait doubled ready
ready-CanWait = record {
  grows = λ room n. omega arith;
  succeeds = λ slots ms h. (if slots == 1 then 1 else 2, ground arith, ground arith);
}

abbrev fresh : EPoll
fresh = record { calls = []; slots = 1; room = 1; total_events = 3; ready_events = 0 }

wait-Waited_example : Waited fresh 1500000 ready (wait doubled ready (some 1500000) fresh)
wait-Waited_example =
    wait-Waited doubled ready ready-CanWait fresh 1500000 (omega arith) (omega arith) (omega arith)
