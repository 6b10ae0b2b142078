-- ===== src/Tests/Parsers.antt =====
-- The event loop of src/event_loop.cc with two handlers of src/parser.cc in it, one of which has read
-- the start of a request.
use hcproxy.Common.{ℕ, ◌≡◌, refl, true, false, ◌||◌, [], ◌∷◌, arith, ◌==◌, if◌then◌else◌}
use hcproxy.NodeList.{Ptr}
use hcproxy.Epoll.{allows}
use hcproxy.EventLoop.{Handler}
use hcproxy.EventLoop.Invariant.{Inv, IsLive}
use hcproxy.Parser.Events.{ParseHandler, Loop, parse_event}
use hcproxy.Parser.Handling.{Handled, parse_event-Handled}
use hcproxy.Tests.Loops.{pair, pair-Holds, poll, allows-IsDocumented, no_error, no_error-CanTell}
use hcproxy.Tests.Requests.{first, second, third, sys_read, sys_read-IsBounded, first-Agrees}

abbrev parser : ℕ → ℕ → Handler ParseHandler
parser fd deadline = record {
  fd = fd;
  deadline = deadline;
  registered = true;
  ref_count = 2;
  freed = false;
  derived = record { content = first; called = [] };
}

abbrev parsers : Ptr → Handler ParseHandler
parsers p =
    if p == 1
    then parser 11 100
    else if p == 2
    then parser 12 150
    else record (parser 13 0) { registered = false; ref_count = 0 }

abbrev parsing : Loop
parsing = record { handlers = parsers; epoll = poll; expire = pair; timeout = 60; on_thread = true }

parsing-IsLive : (p : Ptr) → (p == 1 || (p == 2 || false)) ≡ true → IsLive parsing p
parsing-IsLive p i = record {
  registered = ground arith;
  alive = ground arith;
  referred = ground arith;
  watches = ground arith;
}

parsing-Inv : Inv parsing 90 (1 ∷ 2 ∷ [])
parsing-Inv = record {
  on_thread = refl;
  ordered = pair-Holds;
  rising = omega arith;
  recent = λ p i. ground arith;
  counted = refl;
  live = parsing-IsLive;
  away = λ p o. ground arith;
  own_fd = λ p q i j e. ground arith;
}

parse_event-Handled_example :
    Handled parsing 90 []
      (2 ∷ [])
      1
      512
      (parse_event allows no_error sys_read 512 1 1 parsing (second ∷ third ∷ []))
parse_event-Handled_example =
    parse_event-Handled allows allows-IsDocumented no_error sys_read 512 parsing 1 [] (2 ∷ [])
      parsing-Inv (omega arith) (omega arith) sys_read-IsBounded (omega arith)
      (first-Agrees, omega arith) no_error-CanTell 1 (second ∷ third ∷ [])
