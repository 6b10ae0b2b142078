-- ===== src/Acceptor.antt =====
-- src/acceptor.cc: the listening socket and `Accept`. What the system calls return is a parameter;
-- `accept4` has answered with a list of what it will return.
pub mod First
use hcproxy.Common.{
  ℕ, Bool, true, false, ◌||◌, Option, none, some, List, [], ◌∷◌, Outcome, ok, stuck, ◌>>=◌, ◌>>◌,
  check, ◌==◌,
}
use hcproxy.Parser.{Bytes}
use hcproxy.Logging.{
  Severity, info, error, Part, text, stashed, Library, World, Logged, goes_on, aborts, log,
}
use hcproxy.Addr.{SockAddr, af_inet, Printing, print_ip_port}

-- `Acceptor::Options`
pub record Listening : Type 0 where
  pub listen_addr : Bytes
  pub listen_port : ℕ
  pub accept_queue_size : ℕ

-- one return of `accept4`
pub data Answer : Type 0 where
  accepted : (conn addrlen : ℕ) → SockAddr → Answer
  failed : (errno : ℕ) → Answer

-- the calls that set a socket up; a Boolean is whether the call returns 0
pub record SocketCalls : Type 0 where
  pub getaddrinfo : Bytes → ℕ → Option SockAddr
  pub socket : (family : ℕ) → Option ℕ
  pub setsockopt : (fd level optname : ℕ) → Bool
  pub bind : ℕ → SockAddr → Bool
  pub listen : ℕ → ℕ → Bool

-- `Resolve`
unfoldable pub resolve_host : SocketCalls → Bytes → ℕ → Outcome SockAddr
resolve_host c host port = elim (c.getaddrinfo host port) [
  | none ↦ Outcome.fatal
  | some addr ↦ (do check (addr.family == af_inet); ok addr)
]

-- `SetSockOpt`
unfoldable pub set_sock_opt : SocketCalls → (fd level optname : ℕ) → Outcome (Unit {0})
set_sock_opt c fd level optname = check (c.setsockopt fd level optname)

-- a statement that has to come to its end
abbrev pub said : Logged → Outcome World
said (goes_on w) = ok w
said (aborts w) = Outcome.fatal

abbrev pub file_name : Bytes
file_name = b'a' ∷ b'c' ∷ b'c' ∷ b'e' ∷ b'p' ∷ b't' ∷ b'o' ∷ b'r' ∷ b'.' ∷ b'c' ∷ b'c' ∷ []

abbrev listening : Bytes
listening =
    b'L' ∷ b'i' ∷ b's' ∷ b't' ∷ b'e' ∷ b'n' ∷ b'i' ∷ b'n' ∷ b'g' ∷ b' ' ∷ b'o' ∷ b'n' ∷ b' ' ∷ []

abbrev accepted_from : Bytes
accepted_from =
    b']' ∷ b' ' ∷ b'a' ∷ b'c' ∷ b'c' ∷ b'e' ∷ b'p' ∷ b't' ∷ b'e' ∷ b'd' ∷ b' ' ∷ b'c' ∷ b'o' ∷ b'n'
    ∷ b'n' ∷ b'e' ∷ b'c' ∷ b't' ∷ b'i' ∷ b'o' ∷ b'n' ∷ b' ' ∷ b'f' ∷ b'r' ∷ b'o' ∷ b'm' ∷ b' ' ∷ []

abbrev accept_failed : Bytes
accept_failed =
    b'a' ∷ b'c' ∷ b'c' ∷ b'e' ∷ b'p' ∷ b't' ∷ b'4' ∷ b'(' ∷ b')' ∷ b' ' ∷ b'f' ∷ b'a' ∷ b'i' ∷ b'l'
    ∷ b'e' ∷ b'd' ∷ b':' ∷ b' ' ∷ []

-- `"[" << conn << "] accepted connection from " << IpPort(addr)`
abbrev pub connected_parts : Printing → ℕ → SockAddr → List Part
connected_parts print conn addr =
    text (b'[' ∷ [])
    ∷ text (print.decimal conn)
    ∷ text accepted_from
    ∷ text (print_ip_port print addr)
    ∷ []

-- `"accept4() failed: " << Errno()`
abbrev pub failed_parts : List Part
failed_parts = text accept_failed ∷ stashed ∷ []

-- `errno == EMFILE || errno == ENFILE || errno == ENOBUFS || errno == ENOMEM`
abbrev pub survives : ℕ → Bool
survives e = e == 24 || (e == 23 || (e == 105 || e == 12))

module _ (c : SocketCalls) (lib : Library) (print : Printing) (min : Severity) where
  -- the constructor, which leaves the listening socket
  unfoldable pub open_acceptor : Listening → World → Outcome (ℕ × World)
  open_acceptor opt w = do
    addr ← resolve_host c opt.listen_addr opt.listen_port
    w ←
        said
          (log lib min info file_name 56 (text listening ∷ text (print_ip_port print addr) ∷ []) w)
    elim (c.socket addr.family) [
      | none ↦ Outcome.fatal
      | some fd ↦ (do
        set_sock_opt c fd 1 2
        check (c.bind fd addr)
        check (c.listen fd opt.accept_queue_size)
        ok (fd, w))
    ]

  -- `Accept`
  unfoldable pub accept : List Answer → World → Outcome (ℕ × World)
  accept [] w = stuck
  accept (accepted conn addrlen addr ∷ rest) w = do
    check (addrlen == 16)
    check (addr.family == af_inet)
    w ← said (log lib min info file_name 74 (connected_parts print conn addr) w)
    set_sock_opt c conn 6 1
    ok (conn, w)
  accept (failed e ∷ rest) w = do
    w ← said (log lib min error file_name 78 failed_parts (record w { errno = e }))
    check (survives w.errno)
    accept rest w

-- the destructor, by whether `close` returns 0
unfoldable pub close_acceptor : (closed : Bool) → Outcome (Unit {0})
close_acceptor closed = check closed
