-- ===== src/Parser/Receive.antt =====
-- One chunk of data in the loop of `ParseEventHandler::Read` of src/parser.cc.
use hcproxy.Common.{
  ℕ, ◌<◌, ◌^◌, ◌≡◌, ◌≢◌, sym, ◌∙◌, true, false, [], ◌++◌, arith, length, Bool-cases, eq-cases,
  nil-cases, ◌⊎◌, inl, inr, ok, Outcome,
}
use hcproxy.Parser.{
  Bytes, Verdict, more, answer, connect_prefix, end_mark, ends_with, prefix_fits, judge, receive,
}
use hcproxy.Parser.Prefix.{Agrees, prefix_fits_iff}
use mathlib.Core.Bool.{false≢true}
use hcproxy.Parser.Request.{IsRequest, IsRequest-complete, host_port-IsRequest}

-- What a chunk leads to, by what has been read with it.
pub data Received (capacity : ℕ) (content chunk : Bytes) (r : Outcome (Verdict × Bytes))
    : Type 0 where
  -- a whole request: its host_port
  whole :
      (hp : Bytes)
      → IsRequest (content ++ chunk) hp
      → r ≡ ok (answer hp, content ++ chunk)
      → Received capacity content chunk r
  -- not the start of a request: refused, and not counted as read
  foreign :
      ¬ Agrees connect_prefix (content ++ chunk)
      → r ≡ ok (answer [], content)
      → Received capacity content chunk r
  -- no request yet, but the input has ended or the buffer is full: refused
  cut_off :
      ends_with (content ++ chunk) end_mark ≡ false
      → (chunk ≡ []) ⊎ (length (content ++ chunk) ≡ capacity)
      → r ≡ ok (answer [], content ++ chunk)
      → Received capacity content chunk r
  -- no request yet, and there is room for more
  open_ended :
      Agrees connect_prefix (content ++ chunk)
      → ends_with (content ++ chunk) end_mark ≡ false
      → chunk ≢ []
      → length (content ++ chunk) ≢ capacity
      → r ≡ ok (more, content ++ chunk)
      → Received capacity content chunk r

module _ (capacity : ℕ) (content chunk : Bytes) (a : Agrees connect_prefix content)
    (small : length (content ++ chunk) < 2 ^ 63) where
  receive-judge :
      prefix_fits content chunk ≡ true
      → receive capacity content chunk ≡ judge capacity (content ++ chunk) chunk
  unfolding receive
  receive-judge h = rw h

  receive_foreign :
      prefix_fits content chunk ≡ false
      → Received capacity content chunk (receive capacity content chunk)
  unfolding receive
  receive_foreign h =
      foreign (λ b. false≢true (sym h ∙ (prefix_fits_iff content chunk a).1 b)) (rw h)

  receive_unfinished :
      Agrees connect_prefix (content ++ chunk)
      → ends_with (content ++ chunk) end_mark ≡ false
      → receive capacity content chunk ≡ judge capacity (content ++ chunk) chunk
      → Received capacity content chunk (receive capacity content chunk)
  unfolding judge
  receive_unfinished b h e = elim (nil-cases chunk) [
    | inl at_end ↦ cut_off h (inl at_end) (e ∙ rw h (ground arith))
    | inr got ↦ elim (eq-cases (length (content ++ chunk)) capacity) [
      | inl full ↦ cut_off h (inr full) (e ∙ rw h (ground arith))
      | inr room ↦ open_ended b h got room (e ∙ rw h (ground arith))
    ]
  ]

  receive_whole :
      Agrees connect_prefix (content ++ chunk)
      → ends_with (content ++ chunk) end_mark ≡ true
      → receive capacity content chunk ≡ judge capacity (content ++ chunk) chunk
      → Received capacity content chunk (receive capacity content chunk)
  unfolding judge
  receive_whole b h e =
      let (hp, r) = IsRequest-complete (content ++ chunk) b h in
      whole hp r (e ∙ rw (h, host_port-IsRequest (content ++ chunk) hp r small))

  -- Every chunk is treated as the comment above the class says, and no check and no `substr` fails.
  pub receive-Received : Received capacity content chunk (receive capacity content chunk)
  receive-Received = elim (Bool-cases (prefix_fits content chunk)) [
    | inr h ↦ receive_foreign h
    | inl h ↦
        let b = (prefix_fits_iff content chunk a).0 h in
        elim (Bool-cases (ends_with (content ++ chunk) end_mark)) [
          | inl e ↦ receive_whole b e (receive-judge h)
          | inr e ↦ receive_unfinished b e (receive-judge h)
        ]
  ]
