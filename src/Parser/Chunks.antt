-- ===== src/Parser/Chunks.antt =====
-- A request that reaches src/parser.cc in pieces.
use hcproxy.Common.{
  ℕ, zero, suc, ◌+◌, ◌-◌, ◌≤◌, ◌<◌, ◌^◌, ◌≡◌, ◌≢◌, refl, ap, sym, ◌∙◌, false, some, List, [], ◌∷◌,
  ◌++◌, arith, length, length-append, ok, append_assoc, append-nil, lt→ltb, subst, length-pos, inl,
  inr,
}
use mathlib.Core.Path.{ap₂}
use mathlib.Core.Bool.{false≢true}
use hcproxy.Parser.{
  Bytes, more, answer, ReadResult, received, connect_prefix, end_mark, ends_with, receive,
  read_loop, read,
}
use hcproxy.Parser.Prefix.{Agrees, Agrees-left, Agrees-whole}
use hcproxy.Parser.Request.{IsRequest, IsRequest-ends, host_port-IsRequest}
use hcproxy.Parser.Receive.{Received, receive-Received, whole, foreign, cut_off, open_ended}
use hcproxy.Parser.Reading.{continued}

abbrev pub join : List Bytes → Bytes
join [] = []
join (c ∷ cs) = c ++ join cs

-- The socket hands out these pieces, one to a call of `read` that has room for it.
pub data Delivers {W : Type 0} (sys_read : ℕ → W → ReadResult × W) : W → List Bytes → Type 0 where
  last :
      {s t : W} {c : Bytes}
      → c ≢ []
      → ((n : ℕ) → length c ≤ n → sys_read n s ≡ (received c, t))
      → Delivers sys_read s (c ∷ [])
  next :
      {s t : W} {c d : Bytes} {cs : List Bytes}
      → c ≢ []
      → ((n : ℕ) → length c ≤ n → sys_read n s ≡ (received c, t))
      → Delivers sys_read t (d ∷ cs)
      → Delivers sys_read s (c ∷ d ∷ cs)

-- Only the whole of it ends in the mark.
abbrev pub EndsOnce : Bytes → Type 0
EndsOnce c = (xs ys : Bytes) → xs ++ ys ≡ c → ys ≢ [] → ends_with xs end_mark ≡ false

IsRequest-Agrees : (c hp : Bytes) → IsRequest c hp → Agrees connect_prefix c
IsRequest-Agrees c hp r =
    subst (Agrees connect_prefix) (sym r.starts) (Agrees-whole connect_prefix (hp ++ r.rest))

IsRequest-unique :
    (c hp hp' : Bytes) → length c < 2 ^ 63 → IsRequest c hp → IsRequest c hp' → hp ≡ hp'
IsRequest-unique c hp hp' small r q =
    let e = sym (host_port-IsRequest c hp r small) ∙ host_port-IsRequest c hp' q small in cc

request-pos : (c hp : Bytes) → IsRequest c hp → 0 < length c
request-pos c hp r = omega (arith, ap (length {0}) r.starts)

append-ne : (xs ys : Bytes) → xs ≢ [] → xs ++ ys ≢ []
append-ne [] ys h e = h refl
append-ne (x ∷ xs) ys h e = cc

pieces-ne :
    {W : Type 0} {sys_read : ℕ → W → ReadResult × W} {s : W} {cs : List Bytes}
    → Delivers sys_read s cs
    → join cs ≢ []
pieces-ne (last {c} ne _) = append-ne c [] ne
pieces-ne (next {c} {d} {cs} ne _ _) = append-ne c (join (d ∷ cs)) ne

module _ {c hp : Bytes} (r : IsRequest c hp) (once : EndsOnce c) (capacity : ℕ)
    (fits : length c ≤ capacity) (small : capacity < 2 ^ 63) where
  receive_last :
      (content chunk : Bytes)
      → content ++ chunk ≡ c
      → Received capacity content chunk (receive capacity content chunk)
      → receive capacity content chunk ≡ ok (answer hp, c)
  receive_last content chunk e (whole hp' q h) =
      h
      ∙ ap₂ (λ x y. ok (answer x, y))
          (IsRequest-unique c hp' hp (omega arith) (subst (λ x. IsRequest x hp') e q) r) e
  receive_last content chunk e (foreign n h) =
      absurd (n (subst (Agrees connect_prefix) (sym e) (IsRequest-Agrees c hp r)))
  receive_last content chunk e (cut_off n w h) =
      absurd (false≢true (sym n ∙ ap (λ x. ends_with x end_mark) e ∙ IsRequest-ends c hp r))
  receive_last content chunk e (open_ended a n ne nf h) =
      absurd (false≢true (sym n ∙ ap (λ x. ends_with x end_mark) e ∙ IsRequest-ends c hp r))

  receive_part :
      (content chunk rest : Bytes)
      → (content ++ chunk) ++ rest ≡ c
      → rest ≢ []
      → chunk ≢ []
      → Received capacity content chunk (receive capacity content chunk)
      → receive capacity content chunk ≡ ok (more, content ++ chunk)
  receive_part content chunk rest e ne ce (whole hp' q h) =
      absurd (false≢true (sym (once (content ++ chunk) rest e ne) ∙ IsRequest-ends _ hp' q))
  receive_part content chunk rest e ne ce (foreign n h) = absurd (
      n (
        Agrees-left connect_prefix (content ++ chunk) rest
          (subst (Agrees connect_prefix) (sym e) (IsRequest-Agrees c hp r))))
  receive_part content chunk rest e ne ce (cut_off n (inl z) h) = absurd (ce z)
  receive_part content chunk rest e ne ce (cut_off n (inr z) h) =
      absurd (
        omega (arith, ap (length {0}) e, length-append (content ++ chunk) rest, length-pos rest ne))
  receive_part content chunk rest e ne ce (open_ended a n z nf h) = h

  module _ {W : Type 0} (sys_read : ℕ → W → ReadResult × W) where
    room_for :
        (content k rest : Bytes) → (content ++ k) ++ rest ≡ c → length k ≤ capacity - length content
    room_for content k rest e =
        omega (arith, ap (length {0}) e, length-append (content ++ k) rest, length-append content k)

    bounded : (content k rest : Bytes) → (content ++ k) ++ rest ≡ c → length (content ++ k) < 2 ^ 63
    bounded content k rest e = omega (arith, ap (length {0}) e, length-append (content ++ k) rest)

    agrees : (content rest : Bytes) → content ++ rest ≡ c → Agrees connect_prefix content
    agrees content rest e =
        Agrees-left connect_prefix content rest
          (subst (Agrees connect_prefix) (sym e) (IsRequest-Agrees c hp r))

    Read : ℕ → Bytes → W → Type 0
    Read fuel content s =
        (t : W) × (read_loop sys_read capacity fuel content s
          ≡ ok (record { result = some hp; content = c; socket = t }))

    Read-last :
        (fuel : ℕ) (content k : Bytes) (s t : W)
        → ((n : ℕ) → length k ≤ n → sys_read n s ≡ (received k, t))
        → content ++ k ≡ c
        → Read (suc fuel) content s
    unfolding Read
    Read-last fuel content k s t deliver e =
        let e' : (content ++ k) ++ [] ≡ c = append-nil (content ++ k) ∙ e in
        let got = deliver (capacity - length content) (room_for content k [] e') in
        (
          (sys_read (capacity - length content) s).1,
          continued sys_read capacity fuel content k s (answer hp) c (ap (λ p. p.0) got) (
              receive_last content k e (
                receive-Received capacity content k (agrees content k e)
                  (bounded content k [] e'))),
        )

    Read-part :
        (fuel : ℕ) (content k rest : Bytes) (s t : W)
        → ((n : ℕ) → length k ≤ n → sys_read n s ≡ (received k, t))
        → (content ++ k) ++ rest ≡ c
        → rest ≢ []
        → k ≢ []
        → Read fuel (content ++ k) t
        → Read (suc fuel) content s
    unfolding Read
    Read-part fuel content k rest s t deliver e ne ke (u, again) =
        let got = deliver (capacity - length content) (room_for content k rest e) in
        (
          u,
          continued sys_read capacity fuel content k s more (content ++ k) (ap (λ p. p.0) got) (
                receive_part content k rest e ne ke (
                  receive-Received capacity content k
                    (agrees content (k ++ rest) (sym (append_assoc content k rest) ∙ e))
                    (bounded content k rest e)))
              ∙ ap (read_loop sys_read capacity fuel (content ++ k)) (ap (λ p. p.1) got)
              ∙ again,
        )

    Read-loop_pieces :
        (fuel : ℕ) (content : Bytes) {s : W} {cs : List Bytes}
        → Delivers sys_read s cs
        → content ++ join cs ≡ c
        → length c < fuel + length content
        → Read fuel content s
    Read-loop_pieces zero content {cs} d e h =
        absurd (omega (arith, ap (length {0}) e, length-append content (join cs)))
    Read-loop_pieces (suc fuel) content {s} (last {t} {c = k} ne deliver) e h =
        Read-last fuel content k s t deliver (ap (◌++◌ content) (sym (append-nil k)) ∙ e)
    Read-loop_pieces (suc fuel) content {s} (next {t} {c = k} {d} {cs} ne deliver more_pieces) e h =
        let e' = append_assoc content k (join (d ∷ cs)) ∙ e in
        Read-part fuel content k (join (d ∷ cs)) s t deliver e' (pieces-ne more_pieces) ne (
          Read-loop_pieces fuel (content ++ k) more_pieces e'
            (omega (arith, length-append content k, length-pos k ne)))

    -- A valid request of at most the buffer's size, which ends in the mark only at its end, is read
    -- to the end by one call of `Read`, and its host_port returned, whatever pieces it comes in.
    pub read_pieces :
        {s : W} {cs : List Bytes}
        → Delivers sys_read s cs
        → join cs ≡ c
        → (t : W) × (read sys_read capacity [] s
            ≡ ok (record { result = some hp; content = c; socket = t }))
    unfolding read Read
    read_pieces {s} d e =
        rw (lt→ltb 0 capacity (omega (arith, request-pos c hp r)))
          (Read-loop_pieces (capacity - 0 + 1) [] d e (omega arith))
