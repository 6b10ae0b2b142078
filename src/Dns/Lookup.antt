-- ===== src/Dns/Lookup.antt =====
-- `Describe` and `ResolveSync` of src/dns.cc. `getaddrinfo` is a parameter: it is given a host and a
-- port, and answers with the addresses it finds, by their numbers, or `none`; so is the family of an
-- address.
use hcproxy.Common.{
  ℕ, Option, none, some, List, [], ◌∷◌, ◌++◌, Outcome, ok, ◌>>◌, check, ◌==◌, if◌then◌else◌,
}
use hcproxy.Parser.{Bytes}
use hcproxy.Addr.{SockAddr, Printing, af_inet, print_ip_port}
use hcproxy.Dns.{Ring}

-- `host_port.c_str()` for a function that reads up to the first zero byte
unfoldable pub c_str : Bytes → Bytes
c_str [] = []
c_str (b ∷ bs) = if b == 0 then [] else b ∷ c_str bs

-- `strchr`: what stands before the first such byte, and what stands behind it
unfoldable pub split_at : ℕ → Bytes → Option (Bytes × Bytes)
split_at x [] = none
split_at x (b ∷ bs) =
    if b == x
    then some ([], bs)
    else elim (split_at x bs) [ none ↦ none | some (front, back) ↦ some (b ∷ front, back) ]

-- `Describe`, of a list that is not circular yet
unfoldable pub describe_rest : Printing → List SockAddr → Bytes
describe_rest p [] = []
describe_rest p (x ∷ xs) = b',' ∷ b' ' ∷ (print_ip_port p x ++ describe_rest p xs)

unfoldable pub describe : Printing → SockAddr → List SockAddr → Bytes
describe p head rest = print_ip_port p head ++ describe_rest p rest

-- the list that `getaddrinfo` gives, made circular
unfoldable pub close_ring : (family : ℕ → ℕ) → List ℕ → Outcome (Option Ring)
close_ring family [] = Outcome.fatal
close_ring family (x ∷ xs) = do
  check (family x == af_inet)
  ok (some (record { addrs = x ∷ xs; at = 0 }))

unfoldable pub resolve_sync :
    (getaddrinfo : Bytes → Bytes → Option (List ℕ))
    → (family : ℕ → ℕ) → Bytes
    → Outcome (Option Ring)
resolve_sync getaddrinfo family host_port = elim (split_at b':' (c_str host_port)) [
  | none ↦ ok none
  | some (host, port) ↦ elim (getaddrinfo host port) [
    | none ↦ ok none
    | some addrs ↦ close_ring family addrs
  ]
]
