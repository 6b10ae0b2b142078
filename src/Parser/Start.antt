-- ===== src/Parser/Start.antt =====
-- `ParseRequest` of src/parser.cc. The function that it schedules is known by the handler it adds.
use hcproxy.Common.{ℕ, Bool, false, some, [], Outcome, ok, ◌>>=◌}
use hcproxy.NodeList.{Ptr}
use hcproxy.Bits.{epoll_in}
use hcproxy.Epoll.{Ctl}
use hcproxy.EventLoop.{Handler, set_handler, add}
use hcproxy.EventLoop.Functions.{PipeKernel, Functions, schedule_or_run}
use hcproxy.Parser.Events.{ParseHandler, Loop}

-- the handler that the constructor makes
abbrev pub parser_of : ℕ → Handler ParseHandler
parser_of fd = record {
  fd = fd;
  deadline = 0;
  registered = false;
  ref_count = 0;
  freed = false;
  derived = record { content = []; called = [] };
}

-- `[this, eh]() { event_loop_.Add(eh, EPOLLIN); }`
unfoldable pub add_parser :
    Ctl → (now : ℕ) → Ptr → Functions Ptr × Loop → Outcome (Functions Ptr × Loop)
add_parser epoll_ctl now p (s, w) = do w ← add epoll_ctl now p epoll_in w; ok (s, w)

-- `ParseRequest`: `p` is where `new` puts the handler, `address` where it puts the function
unfoldable pub parse_request :
    PipeKernel
    → Ctl
    → (now : ℕ) → (on_thread : Bool) → (address p : Ptr) → (fd : ℕ) → Functions Ptr × Loop
    → Outcome (Functions Ptr × Loop)
parse_request k epoll_ctl now on_thread address p fd (s, w) =
    schedule_or_run k (add_parser epoll_ctl now) on_thread address (some p)
      (s, set_handler p (parser_of fd) w)
