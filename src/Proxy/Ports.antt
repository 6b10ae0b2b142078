-- ===== src/Proxy/Ports.antt =====
-- The port that `IsAllowedPort` of src/hcproxy.cc looks at, and the port that `ResolveSync` of
-- src/dns.cc looks up.
use hcproxy.Common.{
  ℕ, suc, ◌+◌, ◌≡◌, ◌≢◌, refl, ap, sym, ◌∙◌, Bool, true, false, ◌||◌, Option, none, some, List, [],
  ◌∷◌, arith, Outcome, ok, ◌==◌, drop, has, Bool-cases, Option-cases, if_true, if_false, inl, inr,
}
use hcproxy.Parser.{Bytes, equal, find_in}
use hcproxy.Parser.Request.{equal-eq}
use hcproxy.Proxy.{colon, no_ports, counts, is_allowed_port}
use hcproxy.Dns.{Ring}
use hcproxy.Dns.Lookup.{c_str, split_at, close_ring, resolve_sync}

abbrev pub AllPlain : List Bytes → Type 0
AllPlain [] = Unit {0}
AllPlain (x ∷ xs) = (c_str x ≡ x) × AllPlain xs

-- a port that is one of the allowed ones has no zero byte
counts-plain :
    (port : Bytes) (allowed : List Bytes)
    → AllPlain allowed
    → counts port allowed ≡ true
    → c_str port ≡ port
unfolding counts
counts-plain port [] h i = cc
counts-plain port (x ∷ xs) h i = elim (Bool-cases (equal port x)) [
  | inl e ↦ let same = equal-eq port x e in ap c_str same ∙ h.0 ∙ sym same
  | inr ne ↦ counts-plain port xs h.1 (ground (arith, ne, i))
]

-- what stands behind the byte that `strchr` has found
abbrev behind : Option (Bytes × Bytes) → Bytes
behind none = []
behind (some (front, back)) = back

abbrev later : Option ℕ → Option ℕ
later o = elim o [ none ↦ none | some i ↦ some (suc i) ]

find-here : (x : ℕ) (xs : Bytes) → (x == b':') ≡ true → find_in colon (x ∷ xs) ≡ some 0
unfolding find_in
find-here x xs e = ground (arith, e)

find-later :
    (x : ℕ) (xs : Bytes) (i : ℕ)
    → (x == b':') ≡ false
    → find_in colon xs ≡ some i
    → find_in colon (x ∷ xs) ≡ some (suc i)
unfolding find_in
find-later x xs i e f = sym (if_false {b = has x colon} (some 0) _ (ground (arith, e))) ∙ ap later f

abbrev longer : ℕ → Option (Bytes × Bytes) → Option (Bytes × Bytes)
longer x o = elim o [ none ↦ none | some (front, back) ↦ some (x ∷ front, back) ]

longer-some :
    (x : ℕ) (o : Option (Bytes × Bytes)) (host port : Bytes)
    → longer x o ≡ some (host, port)
    → (front : Bytes) × (o ≡ some (front, port))
longer-some x none host port h = cc
longer-some x (some (front, back)) host port h =
    (front, ap (λ (b : Bytes). some (front, b)) (ap behind h))

none-some : {r : Bytes × Bytes} → none ≢ some r
none-some h = cc

-- `strchr` on the part before a zero byte finds the first colon of all, if it finds one.
split-find :
    (hp host port : Bytes)
    → split_at b':' (c_str hp) ≡ some (host, port)
    → (sep : ℕ) × (find_in colon hp ≡ some sep) × (port ≡ c_str (drop (suc sep) hp))
unfolding split_at c_str
split-find [] host port h = cc
split-find (x ∷ xs) host port h = elim (Bool-cases (x == 0)) [
  | inl z ↦ absurd (none-some (ap (split_at b':') (if_true [] _ z) ∙ h))
  | inr nz ↦
      let step = ap (split_at b':') (if_false _ (x ∷ c_str xs) nz) ∙ h in
      elim (Bool-cases (x == b':')) [
        | inl e ↦ (
          0,
          find-here x xs e,
          sym (ap behind (if_true _ (longer x (split_at b':' (c_str xs))) e ∙ step)),
        )
        | inr ne ↦
            let (front, d) =
              longer-some x (split_at b':' (c_str xs)) host port
                (if_false (some ([], c_str xs)) _ ne ∙ step) in
            let (i, f, p) = split-find xs front port d in (suc i, find-later x xs i ne f, p)
      ]
]

restricted : (allowed : List Bytes) → allowed ≢ [] → no_ports allowed ≡ false
restricted [] h = absurd (h refl)
restricted (x ∷ xs) h = refl

-- what `IsAllowedPort` has looked up
counts-behind :
    (allowed : List Bytes) (hp : Bytes) (sep : ℕ)
    → allowed ≢ []
    → find_in colon hp ≡ some sep
    → is_allowed_port allowed hp ≡ true
    → counts (drop (suc sep) hp) allowed ≡ true
unfolding is_allowed_port
counts-behind allowed hp sep h f is_allowed =
    let test : Option ℕ → Bool = λ o. elim o [
      | none ↦ false
      | some i ↦ no_ports allowed || counts (drop (i + 1) hp) allowed
    ] in
    let passed : (no_ports allowed || counts (drop (sep + 1) hp) allowed) ≡ true =
      sym (ap test f) ∙ is_allowed in
    let same : suc sep ≡ sep + 1 = omega arith in
    ap (λ n. counts (drop n hp) allowed) same ∙ ground (arith, restricted allowed h, passed)

port-counts :
    (allowed : List Bytes) (hp host port : Bytes)
    → allowed ≢ []
    → AllPlain allowed
    → is_allowed_port allowed hp ≡ true
    → split_at b':' (c_str hp) ≡ some (host, port)
    → counts port allowed ≡ true
port-counts allowed hp host port h plain is_allowed e =
    let (sep, f, p) = split-find hp host port e in
    let listed = counts-behind allowed hp sep h f is_allowed in
    ap (λ (b : Bytes). counts b allowed) (p ∙ counts-plain (drop (suc sep) hp) allowed plain listed)
    ∙ listed

-- If the ports are restricted, to some without zero bytes, then what `ResolveSync` makes of a host_port
-- that `IsAllowedPort` lets pass does not depend on what `getaddrinfo` would answer for any other port:
-- it is never asked for one.
pub resolve_sync-asks :
    (allowed : List Bytes) (hp : Bytes) (family : ℕ → ℕ) (f g : Bytes → Bytes → Option (List ℕ))
    → allowed ≢ []
    → AllPlain allowed
    → is_allowed_port allowed hp ≡ true
    → ((host port : Bytes) → counts port allowed ≡ true → f host port ≡ g host port)
    → resolve_sync f family hp ≡ resolve_sync g family hp
unfolding resolve_sync
resolve_sync-asks allowed hp family f g some_ports plain is_allowed same =
    elim (Option-cases (split_at b':' (c_str hp))) [
      | inl n ↦ ap (look f) n ∙ sym (ap (look g) n)
      | inr ((host, port), e) ↦
          ap (look f) e
          ∙ ap (answered family)
              (same host port (port-counts allowed hp host port some_ports plain is_allowed e))
          ∙ sym (ap (look g) e)
    ]
  where
    answered : (ℕ → ℕ) → Option (List ℕ) → Outcome (Option Ring)
    answered family r = elim r [ none ↦ ok none | some addrs ↦ close_ring family addrs ]

    look : (Bytes → Bytes → Option (List ℕ)) → Option (Bytes × Bytes) → Outcome (Option Ring)
    look f r = elim r [ none ↦ ok none | some (host, port) ↦ answered family (f host port) ]
