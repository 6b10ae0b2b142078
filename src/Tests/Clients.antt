-- ===== src/Tests/Clients.antt =====
-- A client of src/hcproxy.cc that asks for port 1 of host a, where ports 1 and 2 are allowed.
use hcproxy.Common.{ℕ, ◌≡◌, refl, true, Option, none, some, List, [], ◌∷◌, if_true, if◌then◌else◌}
use hcproxy.Parser.{Bytes, find_in}
use hcproxy.Proxy.{on_request, is_allowed_port, counts}
use hcproxy.Proxy.Ports.{AllPlain, resolve_sync-asks}
use hcproxy.Dns.Lookup.{c_str, resolve_sync}
use hcproxy.Proxy.Serve.{Served, on_request-Served}

abbrev host_port : Bytes
host_port = b'a' ∷ b':' ∷ b'1' ∷ []

abbrev allowed : List Bytes
allowed = (b'1' ∷ []) ∷ (b'2' ∷ []) ∷ []

on_request-Served_example :
    Served {Addr = ℕ} allowed
      (λ hp. some 9)
      (λ a. some 5)
      (λ fd. true)
      7
      host_port
      (on_request {Addr = ℕ} allowed (λ hp. some 9) (λ a. some 5) (λ fd. true) 7 host_port)
on_request-Served_example =
    on_request-Served allowed (λ hp. some 9) (λ a. some 5) (λ fd. true) 7 host_port

-- what `getaddrinfo` answers, and what it would answer to whoever asks for another port
abbrev answers : Bytes → Bytes → Option (List ℕ)
answers host port = some (7 ∷ [])

abbrev other_answers : Bytes → Bytes → Option (List ℕ)
other_answers host port = if counts port allowed then some (7 ∷ []) else none

allowed-AllPlain : AllPlain allowed
unfolding c_str
allowed-AllPlain = (refl, (refl, tt))

is_allowed : is_allowed_port allowed host_port ≡ true
unfolding is_allowed_port counts find_in
is_allowed = refl

same_answers :
    (host port : Bytes) → counts port allowed ≡ true → answers host port ≡ other_answers host port
same_answers host port h = if_true (some (7 ∷ [])) none h

resolve_sync-asks_example :
    resolve_sync answers (λ a. 2) host_port ≡ resolve_sync other_answers (λ a. 2) host_port
resolve_sync-asks_example =
    resolve_sync-asks allowed host_port (λ a. 2) answers other_answers (λ e. cc) allowed-AllPlain
      is_allowed same_answers
