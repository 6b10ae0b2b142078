-- ===== src/Tests/TimeOuts.antt =====
-- The tunnel of src/forwarder.cc when one of its links has an event or times out: the loop holds that
-- link, and nobody the other.
use hcproxy.Common.{
  length, ◌+◌, ℕ, ◌≡◌, refl, true, false, ◌||◌, Option, none, [], ◌∷◌, arith, ◌==◌, if◌then◌else◌,
}
use hcproxy.NodeList.{Ptr}
use hcproxy.Epoll.{allows}
use hcproxy.EventLoop.{Handler, EventLoop}
use hcproxy.EventLoop.Invariant.{Inv, IsLive}
use hcproxy.Forwarder.Link.{Link}
use hcproxy.Forwarder.Link.Sides.{Side, Tunnel}
use hcproxy.Tests.Loops.{pair, pair-Holds, poll, allows-IsDocumented, closes, no_error}
use hcproxy.Forwarder.Link.{link_on_timeout}
use hcproxy.Forwarder.Link.TimeOut.{TimedOut, link_on_timeout-TimedOut}
use hcproxy.Bits.{epoll_in}
use hcproxy.Parser.{Bytes}
use hcproxy.Forwarder.Link.{Net, link_on_event}
use hcproxy.Forwarder.Link.Release.{Handled}
use hcproxy.Forwarder.Link.Serve.{link_on_event-Handled}
use hcproxy.Tests.Tunnels.{eager, buffer, buffer-IsSound, eager_calls, eager-IsFinite}

abbrev link : ℕ → ℕ → Ptr → Handler Link
link fd deadline other = record {
  fd = fd;
  deadline = deadline;
  registered = true;
  ref_count = 3;
  freed = false;
  derived = record {
    out = buffer;
    readable = true;
    writable = true;
    other = other;
    fd_open = true;
  };
}

abbrev links : Ptr → Handler Link
links p =
    if p == 1
    then link 11 100 2
    else if p == 2
    then record (link 12 150 1) { ref_count = 2 }
    else record (link 13 0 0) { registered = false; ref_count = 0 }

abbrev tunnel : EventLoop Link
tunnel = record { handlers = links; epoll = poll; expire = pair; timeout = 60; on_thread = true }

tunnel-IsLive : (p : Ptr) → (p == 1 || (p == 2 || false)) ≡ true → IsLive tunnel p
tunnel-IsLive p i = record {
  registered = ground arith;
  alive = ground arith;
  referred = ground arith;
  watches = ground arith;
}

tunnel-Inv : Inv tunnel 90 (1 ∷ 2 ∷ [])
tunnel-Inv = record {
  on_thread = refl;
  ordered = pair-Holds;
  rising = omega arith;
  recent = λ p i. ground arith;
  counted = refl;
  live = tunnel-IsLive;
  away = λ p o. ground arith;
  own_fd = λ p q i j e. ground arith;
}

near-Side : Side tunnel (1 ∷ 2 ∷ []) 1 2 1
near-Side = record {
  is_set = omega arith;
  alive = refl;
  joined = refl;
  listed = refl;
  descriptor = refl;
  counted = refl;
}

far-Side : Side tunnel (1 ∷ 2 ∷ []) 2 1 0
far-Side = record {
  is_set = omega arith;
  alive = refl;
  joined = refl;
  listed = refl;
  descriptor = refl;
  counted = refl;
}

both-Tunnel : Tunnel tunnel 90 (1 ∷ 2 ∷ []) 1 2 1 0
both-Tunnel = record { inv = tunnel-Inv; apart = omega arith; left = near-Side; right = far-Side }

abbrev shutdown : ℕ → ℕ → Option ℕ
shutdown fd how = none

link_on_timeout-TimedOut_example :
    TimedOut 90 1 2 1 (link_on_timeout allows closes shutdown eager 1 tunnel)
link_on_timeout-TimedOut_example =
    link_on_timeout-TimedOut allows allows-IsDocumented closes (λ fd. refl) shutdown eager refl
      tunnel 90 (1 ∷ 2 ∷ []) 1 2 0 both-Tunnel

abbrev net : Net Bytes
net = record { loop = tunnel; kernel = 30 ∷ 40 ∷ 50 ∷ [] }

link_on_event-Handled_example :
    Handled tunnel 92
      (1 ∷ 2 ∷ [])
      1
      2
      1
      (link_on_event allows closes shutdown eager no_error true 15 (λ i. i + 91) 1 epoll_in net)
link_on_event-Handled_example =
    link_on_event-Handled eager_calls (length {0}) eager-IsFinite 15 (λ i. i + 91) 1 2 epoll_in 90
      (omega arith) (omega arith) net (1 ∷ 2 ∷ []) 0 both-Tunnel
      (record { sound = buffer-IsSound; fed = λ r. refl; drawn = λ w. refl })
      (record { sound = buffer-IsSound; fed = λ r. refl; drawn = λ w. refl }) (omega arith)
