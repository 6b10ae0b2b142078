-- ===== src/Tests/Tunnels.antt =====
-- The tunnel of src/forwarder.cc between two links, both open, on a kernel that takes and gives what
-- it is asked for.
use hcproxy.Common.{
  inl, ℕ, ◌≤◌, ◌≡◌, refl, ap, subst, true, false, ◌||◌, Option, none, [], ◌∷◌, arith, ◌==◌,
  if◌then◌else◌, length, take, drop, length-take, take-append-drop, length-append,
}
use hcproxy.NodeList.{Ptr}
use hcproxy.Epoll.{allows}
use hcproxy.EventLoop.{Handler, EventLoop}
use hcproxy.EventLoop.Invariant.{Inv, IsLive}
use hcproxy.Parser.{Bytes, ReadResult, received}
use hcproxy.Forwarder.{Buffer, Kernel, SpliceResult, moved, write_from, read_to}
use hcproxy.Forwarder.Transfer.{
  IsDocumented, IsSound, Filled, Drained, write_from-Filled, read_to-Drained,
}
use hcproxy.Forwarder.Link.Shut.{Shut, close_for_reading-Shut, Muted, close_for_writing-Muted}
use hcproxy.Forwarder.Link.Flow.{Calls, IsFinite, Flow}
use hcproxy.Forwarder.Link.Forward.{Forwarded, forward_from_other-Forwarded}
use hcproxy.Forwarder.Link.{
  close_for_reading, close_for_writing, forward_from_other, Net, Link, close_link, terminate,
}
use hcproxy.Forwarder.Link.Sides.{Side, Tunnel, Closed}
use hcproxy.Forwarder.Link.Close.{close_link-Closed}
use hcproxy.Forwarder.Link.Terminate.{Torn, terminate-Torn}
use hcproxy.Tests.Loops.{
  pair, pair-Holds, poll, allows-IsDocumented, closes, no_error, no_error-CanTell,
}

-- the state is what is still to arrive
abbrev pub eager : Kernel Bytes
eager = record {
  splice_in = λ fd n w. (received (take n w), drop n w);
  splice_out = λ q fd n w. (moved n, w);
  probe = λ fd w. none;
  close = true;
}

bytes_of : ReadResult → Bytes
bytes_of (received c) = c
bytes_of _ = []

count_of : SpliceResult → ℕ
count_of (moved n) = n
count_of _ = 0

pub eager-IsDocumented : IsDocumented eager
unfolding bytes_of count_of
eager-IsDocumented = record {
  in_bounded = λ fd n w c e. subst (λ x. length x ≤ n) (ap bytes_of e) (length-take n w);
  out_bounded = λ q fd n m w e. omega (arith, ap count_of e);
  out_moves = λ q fd n w ne pos e. omega (arith, ap count_of e);
  counts_left = λ q fd n e w. λ i. cc;
  closes = refl;
}

abbrev pub buffer : Buffer
buffer = record {
  capacity = 4;
  size = 2;
  read_open = true;
  write_open = true;
  queued = 10 ∷ 20 ∷ [];
}

pub buffer-IsSound : IsSound buffer
buffer-IsSound = record { counts = refl; fits = omega arith }

write_from-Filled_example :
    Filled eager 7 (30 ∷ 40 ∷ 50 ∷ []) buffer (write_from eager 7 buffer (30 ∷ 40 ∷ 50 ∷ []))
write_from-Filled_example =
    write_from-Filled eager eager-IsDocumented buffer buffer-IsSound 7 (30 ∷ 40 ∷ 50 ∷ []) refl

read_to-Drained_example : Drained eager 7 [] buffer (read_to eager 7 buffer [])
read_to-Drained_example = read_to-Drained eager eager-IsDocumented buffer buffer-IsSound 7 [] refl

abbrev link : ℕ → ℕ → Ptr → Handler Link
link fd deadline other = record {
  fd = fd;
  deadline = deadline;
  registered = true;
  ref_count = 3;
  freed = false;
  derived = record {
    out = buffer;
    readable = true;
    writable = true;
    other = other;
    fd_open = true;
  };
}

abbrev links : Ptr → Handler Link
links p =
    if p == 1
    then link 11 100 2
    else if p == 2
    then link 12 150 1
    else record (link 13 0 0) { registered = false; ref_count = 0 }

abbrev tunnel : EventLoop Link
tunnel = record { handlers = links; epoll = poll; expire = pair; timeout = 60; on_thread = true }

tunnel-IsLive : (p : Ptr) → (p == 1 || (p == 2 || false)) ≡ true → IsLive tunnel p
tunnel-IsLive p i = record {
  registered = ground arith;
  alive = ground arith;
  referred = ground arith;
  watches = ground arith;
}

tunnel-Inv : Inv tunnel 90 (1 ∷ 2 ∷ [])
tunnel-Inv = record {
  on_thread = refl;
  ordered = pair-Holds;
  rising = omega arith;
  recent = λ p i. ground arith;
  counted = refl;
  live = tunnel-IsLive;
  away = λ p o. ground arith;
  own_fd = λ p q i j e. ground arith;
}

near-Side : Side tunnel (1 ∷ 2 ∷ []) 1 2 1
near-Side = record {
  is_set = omega arith;
  alive = refl;
  joined = refl;
  listed = refl;
  descriptor = refl;
  counted = refl;
}

far-Side : Side tunnel (1 ∷ 2 ∷ []) 2 1 1
far-Side = record {
  is_set = omega arith;
  alive = refl;
  joined = refl;
  listed = refl;
  descriptor = refl;
  counted = refl;
}

both-Tunnel : Tunnel tunnel 90 (1 ∷ 2 ∷ []) 1 2 1 1
both-Tunnel = record { inv = tunnel-Inv; apart = omega arith; left = near-Side; right = far-Side }

abbrev shutdown : ℕ → ℕ → Option ℕ
shutdown fd how = none

close_link-Closed_example :
    Closed tunnel 90 (1 ∷ 2 ∷ []) 1 2 1 1 (close_link allows closes shutdown eager 1 tunnel)
close_link-Closed_example =
    close_link-Closed allows allows-IsDocumented closes (λ fd. refl) shutdown eager refl tunnel 90 1
      2 0 0 both-Tunnel

terminate-Torn_example :
    Torn tunnel 90 (1 ∷ 2 ∷ []) 1 2 1 1 (terminate allows closes shutdown eager 1 tunnel)
terminate-Torn_example =
    terminate-Torn allows allows-IsDocumented closes (λ fd. refl) shutdown eager refl tunnel 90 1 2
      0 0 both-Tunnel

close_for_reading-Shut_example :
    Shut tunnel 90 (1 ∷ 2 ∷ []) 1 2 1 1 (close_for_reading allows closes shutdown eager 1 tunnel)
close_for_reading-Shut_example =
    close_for_reading-Shut allows allows-IsDocumented closes (λ fd. refl) shutdown
      (λ fd how. inl refl) eager refl tunnel 90 1 2 0 0 both-Tunnel refl

close_for_writing-Muted_example :
    Muted tunnel 90 (1 ∷ 2 ∷ []) 1 2 1 1 (close_for_writing allows closes shutdown eager 1 tunnel)
close_for_writing-Muted_example =
    close_for_writing-Muted allows allows-IsDocumented closes (λ fd. refl) shutdown
      (λ fd how. inl refl) eager refl tunnel 90 1 2 0 0 both-Tunnel refl

abbrev pub eager_calls : Calls Bytes
eager_calls = record {
  epoll_ctl = allows;
  close = closes;
  shutdown = shutdown;
  getsockopt = no_error;
  left_first = true;
  tells = no_error-CanTell;
  kernel = eager;
  ctl_documented = allows-IsDocumented;
  closes = λ fd. refl;
  shuts = λ fd how. inl refl;
  splice_documented = eager-IsDocumented;
}

pub eager-IsFinite : IsFinite eager (length {0})
eager-IsFinite = record {
  used = λ fd n w.
      omega (arith, ap (length {0}) (take-append-drop n w), length-append (take n w) (drop n w));
  kept = λ q fd n w. omega arith;
}

both-Flow : Flow tunnel 90 (1 ∷ 2 ∷ []) 1 2 0 0
both-Flow = record {
  tunnel = both-Tunnel;
  there = record { sound = buffer-IsSound; fed = λ r. refl; drawn = λ w. refl };
  back = record { sound = buffer-IsSound; fed = λ r. refl; drawn = λ w. refl };
}

abbrev net : Net Bytes
net = record { loop = tunnel; kernel = 30 ∷ 40 ∷ 50 ∷ [] }

forward_from_other-Forwarded_example :
    Forwarded
      (length {0})
      net
      90
      (1 ∷ 2 ∷ [])
      1
      2
      0
      0
      (forward_from_other allows closes shutdown eager 11 1 net)
forward_from_other-Forwarded_example =
    forward_from_other-Forwarded eager_calls (length {0}) eager-IsFinite 90 1 2 0 0 11 net both-Flow
      (omega arith)
