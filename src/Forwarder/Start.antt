-- ===== src/Forwarder/Start.antt =====
-- `LinkEventHandler::New` of src/forwarder.cc: how a tunnel starts. What `new` returns is a
-- parameter, the addresses of the two handlers.
pub mod Buffers
pub mod Discard
pub mod Joined
pub mod Connected
pub mod Started
pub mod Opened
use hcproxy.Common.{
  ℕ, zero, suc, ◌+◌, Bool, true, false, Option, none, some, [], ◌∷◌, Outcome, ok, ◌>>=◌, ◌>>◌,
  check, ◌&&◌,
}
use hcproxy.NodeList.{Ptr, null}
use hcproxy.Bits.{epoll_in, epoll_out, epoll_et}
use hcproxy.Epoll.{Ctl}
use hcproxy.EventLoop.{Handler, EventLoop, set_handler, deref, inc_ref, delete, add}
use hcproxy.Parser.{Bytes}
use hcproxy.Forwarder.{Buffer, Kernel, init, write}
use hcproxy.Forwarder.Link.{Link, set_link, destroy}

-- `kResponse`
abbrev pub response : Bytes
response =
    b'H' ∷ b'T' ∷ b'T' ∷ b'P' ∷ b'/' ∷ b'1' ∷ b'.' ∷ b'1' ∷ b' ' ∷ b'2' ∷ b'0' ∷ b'0' ∷ b' ' ∷ b'O'
    ∷ b'K' ∷ b'\r' ∷ b'\n' ∷ b'\r' ∷ b'\n' ∷ []

-- the sizes of `Forwarder::Options`; the timeout is that of the event loop
pub record BufferSizes : Type 0 where
  pub client_to_server : ℕ
  pub server_to_client : ℕ

-- what the calls of one `Init` return
pub record PipeCalls : Type 0 where
  pub errno : Option ℕ
  pub set_size : ℕ
  pub read_size : ℕ
  pub write_size : ℕ

-- a handler that the constructor has made, with a buffer and another link
abbrev pub made : ℕ → Buffer → Ptr → Handler Link
made fd out other = record {
  fd = fd;
  deadline = 0;
  registered = false;
  ref_count = 0;
  freed = false;
  derived = record { out = out; readable = true; writable = true; other = other; fd_open = true };
}

-- `Buffer()`, which leaves `capacity_` to `Init`
abbrev pub no_pipe : Buffer
no_pipe = record { capacity = 0; size = 0; read_open = false; write_open = false; queued = [] }

abbrev pub all_events : ℕ
all_events = epoll_in + epoll_out + epoll_et

module _ {W : Type 0} (close : ℕ → Bool) (k : Kernel W) where
  -- the body of the loop over both links where a pipe could not be opened
  unfoldable pub discard : Ptr → EventLoop Link → Outcome (EventLoop Link)
  discard p w = do
    h ← deref p w
    check (h.derived.fd_open && close h.fd)
    delete (destroy k) p
        (record h {
          derived = record h.derived { readable = false; writable = false; fd_open = false };
        })
        w

module _ (epoll_ctl : Ctl) (clock : ℕ → ℕ) (written : ℕ) (client server : Ptr) where
  -- `client->other_ = server` to the end, where `written` is what `write` returns
  unfoldable pub connect_links : EventLoop Link → Outcome (EventLoop Link)
  connect_links w = do
    h ← deref client w
    let w = set_link client (record h.derived { other = server }) w
    h ← deref server w
    let w = set_link server (record h.derived { other = client }) w
    w ← inc_ref client w
    w ← inc_ref server w
    w ← add epoll_ctl (clock 0) client all_events w
    w ← add epoll_ctl (clock 1) server all_events w
    h ← deref client w
    b ← write response written h.derived.out
    ok (set_link client (record h.derived { out = b }) w)

module _ {W : Type 0} (epoll_ctl : Ctl) (close : ℕ → Bool) (k : Kernel W) (clock : ℕ → ℕ)
    (written : ℕ) (client server : Ptr) where
  -- both `Init`, the second one only after a success
  unfoldable pub open_pipes :
      BufferSizes → PipeCalls → PipeCalls → EventLoop Link → Outcome (EventLoop Link)
  open_pipes opt first second w = do
    o ← init opt.server_to_client first.errno first.set_size first.read_size first.write_size
    elim o [
      | none ↦ discard close k client w >>= discard close k server
      | some b ↦ (do
        h ← deref client w
        let w = set_link client (record h.derived { out = b }) w
        o ←
            init opt.client_to_server second.errno second.set_size second.read_size
              second.write_size
        elim o [
          | none ↦ discard close k client w >>= discard close k server
          | some b ↦ (do
            h ← deref server w
            connect_links epoll_ctl clock written client server
                (set_link server (record h.derived { out = b }) w))
        ])
    ]

  -- `New`
  unfoldable pub new_links :
      (client_fd server_fd : ℕ)
      → BufferSizes
      → PipeCalls
      → PipeCalls
      → EventLoop Link
      → Outcome (EventLoop Link)
  new_links client_fd server_fd opt first second w =
      let w = set_handler client (made client_fd no_pipe null) w in
      let w = set_handler server (made server_fd no_pipe null) w in open_pipes opt first second w
