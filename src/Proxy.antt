-- ===== src/Proxy.antt =====
-- `RunProxy` of src/hcproxy.cc: which ports are allowed, and what is done for one client. The set of
-- allowed ports is a list. The parser's host_port is given; what the resolver and the connector answer
-- are parameters, and the callbacks are called with it; `close` answers whether it returned 0.
pub mod Serve
pub mod Ports
use hcproxy.Common.{
  ℕ, suc, ◌+◌, Bool, true, false, not, ◌||◌, Option, none, some, List, [], ◌∷◌, if◌then◌else◌, drop,
  Outcome, ok, ◌>>◌, check,
}
use hcproxy.Parser.{Bytes, equal, find_in}

abbrev pub colon : Bytes
colon = b':' ∷ []

-- `unordered_set::count`
unfoldable pub counts : Bytes → List Bytes → Bool
unfolding equal
counts port [] = false
counts port (x ∷ xs) = equal port x || counts port xs

abbrev pub no_ports : List Bytes → Bool
no_ports [] = true
no_ports _ = false

abbrev no_bytes : Bytes → Bool
no_bytes [] = true
no_bytes _ = false

-- `IsAllowedPort`
unfoldable pub is_allowed_port : List Bytes → Bytes → Bool
is_allowed_port allowed host_port = elim (find_in colon host_port) [
  | none ↦ false
  | some sep ↦ no_ports allowed || counts (drop (sep + 1) host_port) allowed
]

-- What is done with the client in the end: it is closed, or forwarded to a server.
pub data Ending : Type 0 where
  close_client : Ending
  forward : (server_fd : ℕ) → Ending

module _ {Addr : Type 0} (allowed : List Bytes) (dns_resolve : Bytes → Option Addr)
    (connect : Addr → Option ℕ) (close : ℕ → Bool) (client_fd : ℕ) where
  -- `CHECK(close(client_fd) == 0)`
  unfoldable pub turn_away : Outcome Ending
  turn_away = do check (close client_fd); ok close_client

  -- the callback of `Connect`, where `none` is a negative descriptor
  unfoldable pub on_connected : Option ℕ → Outcome Ending
  unfolding turn_away
  on_connected none = turn_away
  on_connected (some server_fd) = ok (forward server_fd)

  -- the callback of `Resolve`
  unfoldable pub on_resolved : Option Addr → Outcome Ending
  unfolding turn_away on_connected
  on_resolved none = turn_away
  on_resolved (some addr) = on_connected (connect addr)

  -- the callback of `ParseRequest`
  unfoldable pub on_request : Bytes → Outcome Ending
  unfolding turn_away on_resolved is_allowed_port
  on_request host_port =
      if no_bytes host_port || not (is_allowed_port allowed host_port)
      then turn_away
      else on_resolved (dns_resolve host_port)
