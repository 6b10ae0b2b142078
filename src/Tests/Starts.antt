-- ===== src/Tests/Starts.antt =====
-- The start of a tunnel (`New` of src/forwarder.cc), with both pipes, in a loop that has no handlers
-- yet.
use hcproxy.Common.{ℕ, ◌+◌, refl, true, none, [], ◌∷◌, arith, length}
use hcproxy.NodeList.{NodeList}
use hcproxy.Bits.{epoll_in}
use hcproxy.Epoll.{EPoll, CtlOp}
use hcproxy.EventLoop.{EventLoop}
use hcproxy.EventLoop.Invariant.{Inv}
use hcproxy.Forwarder.Link.{Link}
use hcproxy.Forwarder.Start.{response, BufferSizes, PipeCalls, made, no_pipe, new_links}
use hcproxy.Forwarder.Start.Started.{Started, CanStart}
use hcproxy.Forwarder.Start.Opened.{new_links-Started}
use hcproxy.Epoll.{allows}
use hcproxy.Tests.Loops.{closes}
use hcproxy.Tests.Tunnels.{eager, eager_calls}

abbrev nothing : NodeList
nothing = record { nodes = λ p. record { prev = 0; next = 0 }; head = 0; tail = 0 }

abbrev poll : EPoll
poll = record {
  calls = record { op = CtlOp.add; fd = 10; events = epoll_in; handler = 0 } ∷ [];
  slots = 1;
  room = 1;
  total_events = 1;
  ready_events = 0;
}

abbrev quiet : EventLoop Link
quiet = record {
  handlers = λ p. made (p + 20) no_pipe 0;
  epoll = poll;
  expire = nothing;
  timeout = 60;
  on_thread = true;
}

quiet-Inv : Inv quiet 90 []
quiet-Inv = record {
  on_thread = refl;
  ordered = record {
    head_first = refl;
    tail_last = refl;
    linked = omega arith;
    distinct = tt;
    loose = λ p out. (refl, refl);
  };
  rising = tt;
  recent = λ p i. cc;
  counted = refl;
  live = λ p i. absurd (ground (arith, i));
  away = λ p o. refl;
  own_fd = λ p q i j e. absurd (ground (arith, i));
}

abbrev sizes : BufferSizes
sizes = record { client_to_server = 4096; server_to_client = 8192 }

abbrev pipe : ℕ → PipeCalls
pipe n = record { errno = none; set_size = n; read_size = n; write_size = n }

can_start : CanStart quiet 90 [] 1 2 11 12 sizes (pipe 8192) (pipe 4096) (λ i. i + 91)
can_start = record {
  inv = quiet-Inv;
  set = (omega arith, omega arith);
  apart = omega arith;
  unused = (refl, refl);
  two_fds = omega arith;
  unwatched = (refl, refl);
  later = (omega arith, omega arith);
  sizes = ((omega arith, omega arith), (omega arith, omega arith));
  pipes = (
    record {
      refused = λ e h. cc;
      rounds_up = λ h. (omega arith, omega arith);
      agrees = λ h. (refl, refl);
    },
    record {
      refused = λ e h. cc;
      rounds_up = λ h. (omega arith, omega arith);
      agrees = λ h. (refl, refl);
    },
  );
}

new_links-Started_example : Started quiet 90 92 [] 1 2 (pipe 8192) (pipe 4096) (
    new_links allows closes eager
      (λ i. i + 91)
      (length response)
      1
      2
      11
      12
      sizes
      (pipe 8192)
      (pipe 4096)
      quiet)
new_links-Started_example =
    new_links-Started eager_calls quiet 90 [] 1 2 11 12 sizes (pipe 8192) (pipe 4096) (λ i. i + 91)
      can_start
