-- ===== src/Tests/Lives.antt =====
-- The tunnel of src/forwarder.cc in a round of the loop: only the loop and the links refer to its links.
use hcproxy.Common.{ℕ, true, false, [], ◌∷◌, ◌==◌, if◌then◌else◌}
use hcproxy.NodeList.{Ptr}
use hcproxy.EventLoop.{Handler, EventLoop}
use hcproxy.Parser.{Bytes}
use hcproxy.Forwarder.Link.{Link, Net}
use hcproxy.Forwarder.Link.Life.{Life}
use hcproxy.Tests.Loops.{pair, poll}
use hcproxy.Tests.Tunnels.{buffer}

abbrev link : ℕ → ℕ → Ptr → Handler Link
link fd deadline other = record {
  fd = fd;
  deadline = deadline;
  registered = true;
  ref_count = 2;
  freed = false;
  derived = record {
    out = buffer;
    readable = true;
    writable = true;
    other = other;
    fd_open = true;
  };
}

abbrev links : Ptr → Handler Link
links p =
    if p == 1
    then link 11 100 2
    else if p == 2
    then link 12 150 1
    else record (link 13 0 0) { registered = false; ref_count = 0 }

abbrev tunnel : EventLoop Link
tunnel = record { handlers = links; epoll = poll; expire = pair; timeout = 60; on_thread = true }

abbrev net : Net Bytes
net = record { loop = tunnel; kernel = 30 ∷ 40 ∷ 50 ∷ [] }
