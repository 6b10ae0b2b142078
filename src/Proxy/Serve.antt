-- ===== src/Proxy/Serve.antt =====
-- The whole way of one client through src/hcproxy.cc.
use hcproxy.Common.{
  subst, ℕ, suc, ◌+◌, ◌≡◌, refl, ap, sym, ◌∙◌, true, false, Bool, Outcome, ok, fatal, Option, none,
  some, List, [], ◌∷◌, ◌++◌, arith, drop, has, ◌∉◌, ◌⊎◌, inl, inr, Bool-cases, Option-cases,
}
use hcproxy.Parser.{Bytes, equal, find_in}
use hcproxy.Parser.Request.{equal-eq}
use hcproxy.Proxy.{
  colon, counts, no_ports, no_bytes, is_allowed_port, Ending, close_client, forward, on_connected,
  on_resolved, on_request, turn_away,
}

abbrev pub Listed : Bytes → List Bytes → Type 0
Listed port [] = ⊥
Listed port (x ∷ xs) = (port ≡ x) ⊎ Listed port xs

-- The port is what stands behind the first colon; an empty list allows all of them.
pub record IsAllowed (allowed : List Bytes) (host_port : Bytes) : Type 0 where
  pub host : Bytes
  pub port : Bytes
  pub parts : host_port ≡ host ++ b':' ∷ port
  pub first_colon : b':' ∉ host
  pub on_list : (allowed ≡ []) ⊎ Listed port allowed

counts-Listed : (port : Bytes) (xs : List Bytes) → counts port xs ≡ true → Listed port xs
unfolding counts
counts-Listed port [] h = cc
counts-Listed port (x ∷ xs) h = elim (Bool-cases (equal port x)) [
  | inl e ↦ inl (equal-eq port x e)
  | inr n ↦ inr (counts-Listed port xs (ground arith))
]

some_inj : {a b : ℕ} → some a ≡ some b → a ≡ b
some_inj {a} e = ap (λ x. elim x [ some y ↦ y | none ↦ a ]) e

-- where the first colon is
record Parts (s : Bytes) (i : ℕ) : Type 0 where
  host : Bytes
  port : Bytes
  parts : s ≡ host ++ b':' ∷ port
  first_colon : b':' ∉ host
  behind : drop (suc i) s ≡ port

find_in-Parts : (s : Bytes) (i : ℕ) → find_in colon s ≡ some i → Parts s i
unfolding find_in
find_in-Parts [] i h = cc
find_in-Parts (c ∷ cs) i h = elim (Bool-cases (has c colon)) [
  | inl e ↦
      let at : 0 ≡ i = some_inj (rw e at h) in
      let is : c ≡ b':' = ground arith in
      record {
        host = [];
        port = cs;
        parts = ap (λ x. x ∷ cs) is;
        first_colon = refl;
        behind = ap (λ n. drop (suc n) (c ∷ cs)) (sym at);
      }
  | inr n ↦ elim (Option-cases (find_in colon cs)) [
    | inl none_left ↦ absurd (cc)
    | inr (j, e) ↦
        let at : suc j ≡ i = some_inj (rw (n, e) at h) in
        let p = find_in-Parts cs j e in
        record {
          host = c ∷ p.host;
          port = p.port;
          parts = ap (◌∷◌ c) p.parts;
          first_colon = ground (arith, p.first_colon);
          behind = ap (λ n. drop (suc n) (c ∷ cs)) (sym at) ∙ p.behind;
        }
  ]
]

no_ports-nil : (xs : List Bytes) → no_ports xs ≡ true → xs ≡ []
no_ports-nil [] h = refl
no_ports-nil (x ∷ xs) h = cc

is_allowed_port-IsAllowed :
    (allowed : List Bytes) (hp : Bytes) → is_allowed_port allowed hp ≡ true → IsAllowed allowed hp
unfolding is_allowed_port
is_allowed_port-IsAllowed allowed hp h = elim (Option-cases (find_in colon hp)) [
  | inl e ↦ absurd (cc)
  | inr (i, e) ↦
      let p = find_in-Parts hp i e in
      let next : suc i ≡ i + 1 = omega arith in
      record {
        host = p.host;
        port = p.port;
        parts = p.parts;
        first_colon = p.first_colon;
        on_list = elim (Bool-cases (no_ports allowed)) [
          | inl all ↦ inl (no_ports-nil allowed all)
          | inr some_only ↦ inr (
              subst (λ x. Listed x allowed) p.behind
                (counts-Listed _ allowed
                  (ap (λ n. counts (drop n hp) allowed) next ∙ listed i e some_only)))
        ];
      }
]
  where
    listed :
        (i : ℕ)
        → find_in colon hp ≡ some i
        → no_ports allowed ≡ false
        → counts (drop (i + 1) hp) allowed ≡ true
    listed i e n = ground arith

-- The client is closed, or that fails.
pub data Turned (close : ℕ → Bool) (client_fd : ℕ) : Outcome Ending → Type 0 where
  closed : close client_fd ≡ true → Turned close client_fd (ok close_client)
  aborted : close client_fd ≡ false → Turned close client_fd fatal

-- How the way of a client with this host_port ends.
pub data Served {Addr : Type 0} (allowed : List Bytes) (dns_resolve : Bytes → Option Addr)
    (connect : Addr → Option ℕ) (close : ℕ → Bool) (client_fd : ℕ) (hp : Bytes)
    : Outcome Ending → Type 0 where
  -- no host_port, or a port that is not allowed
  turned_away :
      {r : Outcome Ending}
      → (hp ≡ []) ⊎ (is_allowed_port allowed hp ≡ false)
      → Turned close client_fd r
      → Served allowed dns_resolve connect close client_fd hp r
  -- no address
  unresolved :
      {r : Outcome Ending}
      → IsAllowed allowed hp
      → dns_resolve hp ≡ none
      → Turned close client_fd r
      → Served allowed dns_resolve connect close client_fd hp r
  -- no connection
  unreachable :
      {r : Outcome Ending} (a : Addr)
      → IsAllowed allowed hp
      → dns_resolve hp ≡ some a
      → connect a ≡ none
      → Turned close client_fd r
      → Served allowed dns_resolve connect close client_fd hp r
  -- a tunnel to the server that was asked for
  tunnelled :
      (a : Addr) (fd : ℕ)
      → IsAllowed allowed hp
      → dns_resolve hp ≡ some a
      → connect a ≡ some fd
      → Served allowed dns_resolve connect close client_fd hp (ok (forward fd))

no_bytes-nil : (xs : Bytes) → no_bytes xs ≡ true → xs ≡ []
no_bytes-nil [] h = refl
no_bytes-nil (x ∷ xs) h = cc

module _ {Addr : Type 0} (allowed : List Bytes) (dns_resolve : Bytes → Option Addr)
    (connect : Addr → Option ℕ) (close : ℕ → Bool) (client_fd : ℕ) (hp : Bytes) where
  turn_away-Turned : Turned close client_fd (turn_away allowed dns_resolve connect close client_fd)
  unfolding turn_away
  turn_away-Turned = elim (Bool-cases (close client_fd)) [
    | inl done ↦ rw done (closed done)
    | inr stays ↦ rw stays (aborted stays)
  ]

  on_connected-Served :
      (a : Addr)
      → IsAllowed allowed hp
      → dns_resolve hp ≡ some a
      → (r : Option ℕ) → connect a ≡ r
      → Served allowed dns_resolve connect close client_fd hp
          (on_connected allowed dns_resolve connect close client_fd r)
  unfolding on_connected
  on_connected-Served a good e none c = unreachable a good e c turn_away-Turned
  on_connected-Served a good e (some fd) c = tunnelled a fd good e c

  on_resolved-Served :
      IsAllowed allowed hp
      → (r : Option Addr) → dns_resolve hp ≡ r
      → Served allowed dns_resolve connect close client_fd hp
          (on_resolved allowed dns_resolve connect close client_fd r)
  unfolding on_resolved
  on_resolved-Served good none e = unresolved good e turn_away-Turned
  on_resolved-Served good (some a) e = on_connected-Served a good e (connect a) refl

  -- A client is forwarded only to a server that Connect reached at an address of its host_port, and
  -- only if the port behind the first colon is allowed; in every other case it is closed, and if
  -- that fails the process is aborted.
  pub on_request-Served :
      Served allowed dns_resolve connect close client_fd hp
        (on_request allowed dns_resolve connect close client_fd hp)
  unfolding on_request
  on_request-Served = elim (Bool-cases (no_bytes hp)) [
    | inl empty ↦ rw empty (turned_away (inl (no_bytes-nil hp empty)) turn_away-Turned)
    | inr some_bytes ↦ elim (Bool-cases (is_allowed_port allowed hp)) [
      | inr refused ↦ rw (some_bytes, refused) (turned_away (inr refused) turn_away-Turned)
      | inl good ↦
          rw (some_bytes, good)
            (on_resolved-Served (is_allowed_port-IsAllowed allowed hp good) (dns_resolve hp) refl)
    ]
  ]
