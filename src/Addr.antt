-- ===== src/Addr.antt =====
-- src/addr.h and src/addr.cc: the address of a peer and its text, and `SockError` of src/sock.cc. What
-- `inet_ntoa`, `ntohs` and the printing of a number give is a parameter.
use hcproxy.Common.{
  true, ◌≡◌, refl, ℕ, Bool, Option, none, some, ◌∷◌, ◌++◌, Outcome, ok, ◌>>◌, check, ◌==◌,
}
use hcproxy.Parser.{Bytes}

-- `sockaddr` and `sockaddr_in`
pub record SockAddr : Type 0 where
  pub family : ℕ
  pub ip : ℕ
  pub port : ℕ

abbrev pub af_inet : ℕ
af_inet = 2

pub record Printing : Type 0 where
  pub inet_ntoa : ℕ → Bytes
  pub ntohs : ℕ → ℕ
  pub decimal : ℕ → Bytes

-- `Cast` of a `sockaddr`
unfoldable pub cast : SockAddr → Outcome SockAddr
cast addr = do check (addr.family == af_inet); ok addr

-- `Cast` of an `addrinfo`, by its `ai_addr`
unfoldable pub cast_info : Option SockAddr → Outcome SockAddr
cast_info none = Outcome.fatal
cast_info (some addr) = cast addr

-- `operator<<` of an `IpPort`
unfoldable pub print_ip_port : Printing → SockAddr → Bytes
print_ip_port p x = p.inet_ntoa x.ip ++ b':' ∷ p.decimal (p.ntohs x.port)

-- `getsockopt` with SO_ERROR: whether it returns 0, and the error and its length that it stores
pub record SockOpt : Type 0 where
  pub done : Bool
  pub err : ℕ
  pub len : ℕ

-- `SockError`
unfoldable pub sock_error : SockOpt → Outcome ℕ
sock_error o = do check o.done; check (o.len == 4); ok o.err

-- `getsockopt` succeeds on an open socket, and stores an `int`.
pub record CanTell (getsockopt : ℕ → SockOpt) : Type 0 where
  pub succeeds : (fd : ℕ) → (getsockopt fd).done ≡ true
  pub is_int : (fd : ℕ) → (getsockopt fd).len ≡ 4

pub sock_error-ok :
    (getsockopt : ℕ → SockOpt)
    → CanTell getsockopt
    → (fd : ℕ) → sock_error (getsockopt fd) ≡ ok (getsockopt fd).err
unfolding sock_error
sock_error-ok getsockopt t fd = rw (t.succeeds fd, t.is_int fd) refl
