-- ===== src/Parser/Reading.antt =====
-- The loop of `ParseEventHandler::Read` of src/parser.cc, over what the socket delivers.
use hcproxy.Common.{
  ℕ, zero, suc, ◌+◌, ◌-◌, ◌≤◌, ◌<◌, ◌^◌, ◌≡◌, ◌≢◌, refl, ◌∙◌, none, some, [], ◌++◌, arith, length,
  ◌==◌, length-append, Bool-cases, ◌⊎◌, inl, inr, ok, Outcome, lt→ltb, subst, length-pos,
}
use hcproxy.Parser.{
  Bytes, Verdict, more, answer, ReadResult, received, failed, Progress, connect_prefix, conclude,
  receive, read_loop, read, eagain,
}
use hcproxy.Parser.Prefix.{Agrees}
use hcproxy.Parser.Request.{IsRequest}
use hcproxy.Parser.Receive.{Received, receive-Received, whole, foreign, cut_off, open_ended}

-- `read` returns no more bytes than there is room for.
pub record IsBounded {W : Type 0} (sys_read : ℕ → W → ReadResult × W) : Type 0 where
  pub bounded :
      (n : ℕ) (s : W) (chunk : Bytes) → (sys_read n s).0 ≡ received chunk → length chunk ≤ n

-- What `Read` promises: it asks to be called again only with room left and a good start, and a
-- host_port that is not empty is that of the request that has been read.
pub record IsSound {W : Type 0} (capacity : ℕ) (p : Progress W) : Type 0 where
  pub within : length p.content ≤ capacity
  pub waits : p.result ≡ none → Agrees connect_prefix p.content × (length p.content < capacity)
  pub answers : (hp : Bytes) → p.result ≡ some hp → hp ≢ [] → IsRequest p.content hp

record Sound {W : Type 0} (capacity : ℕ) (r : Outcome (Progress W)) : Type 0 where
  progress : Progress W
  returns : r ≡ ok progress
  sound : IsSound capacity progress

result-cases :
    (r : ReadResult) → ((e : ℕ) × (r ≡ failed e)) ⊎ ((chunk : Bytes) × (r ≡ received chunk))
result-cases (failed e) = inl (e, refl)
result-cases (received chunk) = inr (chunk, refl)

module _ {W : Type 0} (sys_read : ℕ → W → ReadResult × W) (capacity : ℕ) where
  stopped :
      (fuel : ℕ) (content : Bytes) (s : W) (e : ℕ)
      → (sys_read (capacity - length content) s).0 ≡ failed e
      → Agrees connect_prefix content
      → length content < capacity
      → Sound capacity (read_loop sys_read capacity (suc fuel) content s)
  unfolding read_loop
  stopped fuel content s e h a room = elim (Bool-cases (e == eagain)) [
    | inl again ↦ record {
      progress = record {
        result = none;
        content = content;
        socket = (sys_read (capacity - length content) s).1;
      };
      returns = rw (h, again);
      sound = record { within = omega arith; waits = λ _. (a, room); answers = λ hp x. cc };
    }
    | inr broken ↦ record {
      progress = record {
        result = some [];
        content = content;
        socket = (sys_read (capacity - length content) s).1;
      };
      returns = rw (h, broken);
      sound = record {
        within = omega arith;
        waits = λ x. cc;
        answers = λ hp x ne. absurd (ne (cc));
      };
    }
  ]

  -- the loop after a chunk
  pub continued :
      (fuel : ℕ) (content chunk : Bytes) (s : W) (v : Verdict) (c : Bytes)
      → (sys_read (capacity - length content) s).0 ≡ received chunk
      → receive capacity content chunk ≡ ok (v, c)
      → read_loop sys_read capacity (suc fuel) content s
        ≡ conclude sys_read capacity
            (read_loop sys_read capacity fuel)
            (sys_read (capacity - length content) s).1
            v
            c
  unfolding read_loop
  continued fuel content chunk s v c h e = rw (h, e)

  answered :
      (fuel : ℕ) (content chunk : Bytes) (s : W) (hp c : Bytes)
      → (sys_read (capacity - length content) s).0 ≡ received chunk
      → receive capacity content chunk ≡ ok (answer hp, c)
      → length c ≤ capacity
      → (hp ≢ [] → IsRequest c hp)
      → Sound capacity (read_loop sys_read capacity (suc fuel) content s)
  answered fuel content chunk s hp c h e fits good = record {
    progress = record {
      result = some hp;
      content = c;
      socket = (sys_read (capacity - length content) s).1;
    };
    returns = continued fuel content chunk s (answer hp) c h e;
    sound = record {
      within = fits;
      waits = λ x. cc;
      answers = λ hp' x ne. subst (IsRequest c) (cc) (good (λ z. ne (cc)));
    };
  }

  after_chunk :
      (fuel : ℕ) (content chunk : Bytes) (s : W)
      → (sys_read (capacity - length content) s).0 ≡ received chunk
      → length content < capacity
      → length (content ++ chunk) ≤ capacity
      → capacity - length content < suc fuel
      → ((c : Bytes)
          → Agrees connect_prefix c
          → length c < capacity
          → capacity - length c < fuel
          → Sound capacity
              (read_loop sys_read capacity fuel c (sys_read (capacity - length content) s).1))
      → Received capacity content chunk (receive capacity content chunk)
      → Sound capacity (read_loop sys_read capacity (suc fuel) content s)
  after_chunk fuel content chunk s h room fits enough again (whole hp r e) =
      answered fuel content chunk s hp _ h e fits (λ _. r)
  after_chunk fuel content chunk s h room fits enough again (foreign n e) =
      answered fuel content chunk s [] _ h e (omega arith) (λ z. absurd (z refl))
  after_chunk fuel content chunk s h room fits enough again (cut_off n w e) =
      answered fuel content chunk s [] _ h e fits (λ z. absurd (z refl))
  after_chunk fuel content chunk s h room fits enough again (open_ended a n ne nf e) =
      let r =
        again (content ++ chunk) a (omega arith)
          (omega (arith, length-append content chunk, length-pos chunk ne)) in
      record {
        progress = r.progress;
        returns = continued fuel content chunk s more (content ++ chunk) h e ∙ r.returns;
        sound = r.sound;
      }

  module _ (b : IsBounded sys_read) (small : capacity < 2 ^ 63) where
    -- The loop runs as often as the buffer has bytes left, at most.
    read_loop-Sound :
        (fuel : ℕ) (content : Bytes) (s : W)
        → Agrees connect_prefix content
        → length content < capacity
        → capacity - length content < fuel
        → Sound capacity (read_loop sys_read capacity fuel content s)
    read_loop-Sound zero content s a room enough = absurd (omega arith)
    read_loop-Sound (suc fuel) content s a room enough =
        elim (result-cases (sys_read (capacity - length content) s).0) [
          | inl (e, h) ↦ stopped fuel content s e h a room
          | inr (chunk, h) ↦
              let size =
                fits content chunk room (b.bounded (capacity - length content) s chunk h) in
              after_chunk fuel content chunk s h room size enough
                (λ c. read_loop-Sound fuel c (sys_read (capacity - length content) s).1)
                (receive-Received capacity content chunk a (le_lt size small))
        ]
      where
        fits :
            (content chunk : Bytes)
            → length content < capacity
            → length chunk ≤ capacity - length content
            → length (content ++ chunk) ≤ capacity
        fits content chunk r l = omega (arith, length-append content chunk)

        le_lt : {x : ℕ} → x ≤ capacity → capacity < 2 ^ 63 → x < 2 ^ 63
        le_lt p q = omega arith

    -- `Read` returns, whatever the socket delivers: no check fails, nothing is read past the buffer,
    -- `nullopt` comes only with room left and a good start, and a host_port that is not empty is that
    -- of the valid request that has been read.
    pub read-Sound :
        (content : Bytes) (s : W)
        → Agrees connect_prefix content
        → length content < capacity
        → (p : Progress W) × (read sys_read capacity content s ≡ ok p) × IsSound capacity p
    unfolding read
    read-Sound content s a room =
        let r = read_loop-Sound (capacity - length content + 1) content s a room (omega arith) in
        (r.progress, rw (lt→ltb _ _ room) r.returns, r.sound)
