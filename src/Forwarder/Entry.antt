-- ===== src/Forwarder/Entry.antt =====
-- `Forwarder::Forward` of src/forwarder.cc. The function that it schedules is known by the two
-- descriptors, natural numbers, so that its checks on them hold; the addresses and the pipes that it
-- gets when it runs are parameters.
use hcproxy.Common.{ℕ, Bool, some, Outcome, ok, ◌>>=◌}
use hcproxy.NodeList.{Ptr}
use hcproxy.Epoll.{Ctl}
use hcproxy.EventLoop.{EventLoop}
use hcproxy.EventLoop.Functions.{PipeKernel, Functions, schedule_or_run}
use hcproxy.Forwarder.{Kernel}
use hcproxy.Forwarder.Link.{Link}
use hcproxy.Forwarder.Start.{BufferSizes, PipeCalls, new_links}

abbrev pub Tunnels : Type 0
Tunnels = Functions (ℕ × ℕ) × EventLoop Link

module _ {W : Type 0} (epoll_ctl : Ctl) (close : ℕ → Bool) (k : Kernel W) (opt : BufferSizes)
    (clock : ℕ → ℕ) (written : ℕ) (client server : Ptr) (first second : PipeCalls) where
  -- `[=]() { LinkEventHandler::New(&event_loop_, client_fd, server_fd, opt_); }`
  unfoldable pub start_tunnel : ℕ × ℕ → Tunnels → Outcome Tunnels
  start_tunnel (client_fd, server_fd) (s, w) = do
    w ←
        new_links epoll_ctl close k clock written client server client_fd server_fd opt first second
          w
    ok (s, w)

  unfoldable pub forward_tunnel :
      PipeKernel
      → (on_thread : Bool) → (address : Ptr) → (client_fd server_fd : ℕ) → Tunnels
      → Outcome Tunnels
  forward_tunnel p on_thread address client_fd server_fd r =
      schedule_or_run p start_tunnel on_thread address (some (client_fd, server_fd)) r
