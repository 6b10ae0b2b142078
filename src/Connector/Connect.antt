-- ===== src/Connector/Connect.antt =====
-- `ConnectAsync` and `Connector::Connect` of src/connector.cc.
use hcproxy.Common.{
  ℕ, ◌≡◌, Bool-cases, Option-cases, ◌⊎◌, inl, inr, Bool, true, ◌||◌, Option, none, some, arith,
  Outcome, ok, fatal, ◌>>◌, eq-cases, ◌≢◌, subst, ap, ◌∙◌, false, check, ◌==◌, if◌then◌else◌,
}

-- the result of `socket`: a descriptor, or -1 with an `errno`
pub data Socket : Type 0 where
  opened : ℕ → Socket
  refused : ℕ → Socket

-- EMFILE, ENFILE, ENOBUFS, ENOMEM
pub out_of_resources : ℕ → Bool
out_of_resources e = e == 24 || e == 23 || e == 105 || e == 12

abbrev einprogress : ℕ
einprogress = 115

-- What an attempt to connect comes to: a descriptor to wait for, or -1, which a socket that had been
-- opened has been closed before.
pub data Attempt : Type 0 where
  waiting : ℕ → Attempt
  given_up : (closed : Option ℕ) → Attempt

-- The system calls, for one address: `setsockopt` and `close` answer whether they returned 0, and
-- `connect` with its `errno`, or `none` for 0.
module _ (socket : Socket) (setsockopt close : ℕ → Bool) (connect : ℕ → Option ℕ) where
  connect_opened : ℕ → Outcome Attempt
  connect_opened fd = do
    check (setsockopt fd)
    elim (connect fd) [
      | none ↦ ok (waiting fd)
      | some e ↦
          if e == einprogress
          then ok (waiting fd)
          else (do check (close fd); ok (given_up (some fd)))
    ]

  pub connect_async : Outcome Attempt
  unfolding connect_opened out_of_resources
  connect_async = elim socket [
    | opened fd ↦ connect_opened fd
    | refused e ↦ do check (out_of_resources e); ok (given_up none)
  ]

-- What `Connect` does next: `cb_(-1)` at once, or a handler for the descriptor that the event loop
-- adds, to be told when it is writable.
pub data Next : Type 0 where
  call_back : Next
  watch : (fd events : ℕ) → Next

unfoldable pub next_step : Attempt → Next
next_step (waiting fd) = watch fd 4
next_step (given_up _) = call_back

-- The `errno`s of `socket` that `ConnectAsync` survives.
abbrev pub IsShortage : ℕ → Type 0
IsShortage e = (e ≡ 24) ⊎ (e ≡ 23) ⊎ (e ≡ 105) ⊎ (e ≡ 12)

-- How an attempt ends, by what the system calls return.
pub data Attempted (setsockopt close : ℕ → Bool) (connect : ℕ → Option ℕ)
    : Socket → Outcome Attempt → Type 0 where
  connected :
      {fd : ℕ}
      → setsockopt fd ≡ true
      → connect fd ≡ none
      → Attempted setsockopt close connect (opened fd) (ok (waiting fd))
  in_progress :
      {fd : ℕ}
      → setsockopt fd ≡ true
      → connect fd ≡ some 115
      → Attempted setsockopt close connect (opened fd) (ok (waiting fd))
  failed :
      {fd e : ℕ}
      → setsockopt fd ≡ true
      → connect fd ≡ some e
      → e ≢ 115
      → close fd ≡ true
      → Attempted setsockopt close connect (opened fd) (ok (given_up (some fd)))
  not_closed :
      {fd e : ℕ}
      → setsockopt fd ≡ true
      → connect fd ≡ some e
      → e ≢ 115
      → close fd ≡ false
      → Attempted setsockopt close connect (opened fd) fatal
  not_set : {fd : ℕ} → setsockopt fd ≡ false → Attempted setsockopt close connect (opened fd) fatal
  short :
      {e : ℕ} → IsShortage e → Attempted setsockopt close connect (refused e) (ok (given_up none))
  broken : {e : ℕ} → ¬ IsShortage e → Attempted setsockopt close connect (refused e) fatal

out_of_resources-IsShortage : (e : ℕ) → out_of_resources e ≡ true → IsShortage e
unfolding out_of_resources
out_of_resources-IsShortage e h = ground arith

not-IsShortage : (e : ℕ) → out_of_resources e ≡ false → ¬ IsShortage e
unfolding out_of_resources
not-IsShortage e h = ground arith

module _ (socket : Socket) (setsockopt close : ℕ → Bool) (connect : ℕ → Option ℕ) where
  connect_opened-failed :
      (fd e : ℕ)
      → setsockopt fd ≡ true
      → connect fd ≡ some e
      → e ≢ 115
      → Attempted setsockopt close connect
          (opened fd)
          (connect_opened socket setsockopt close connect fd)
  unfolding connect_opened
  connect_opened-failed fd e set c n = elim (Bool-cases (close fd)) [
    | inl done ↦
        subst (Attempted setsockopt close connect (opened fd)) (ground (arith, set, c, n, done))
          (failed set c n done)
    | inr stays ↦
        subst (Attempted setsockopt close connect (opened fd)) (ground (arith, set, c, n, stays))
          (not_closed set c n stays)
  ]

  connect_opened-Attempted :
      (fd : ℕ)
      → Attempted setsockopt close connect
          (opened fd)
          (connect_opened socket setsockopt close connect fd)
  unfolding connect_opened
  connect_opened-Attempted fd = elim (Bool-cases (setsockopt fd)) [
    | inr off ↦
        subst (Attempted setsockopt close connect (opened fd)) (ground (arith, off)) (not_set off)
    | inl set ↦ elim (Option-cases (connect fd)) [
      | inl c ↦
          subst (Attempted setsockopt close connect (opened fd)) (ground (arith, set, c))
            (connected set c)
      | inr (e, c) ↦ elim (eq-cases e 115) [
        | inl i ↦
            let c = c ∙ ap some i in
            subst (Attempted setsockopt close connect (opened fd)) (ground (arith, set, c))
              (in_progress set c)
        | inr n ↦ connect_opened-failed fd e set c n
      ]
    ]
  ]

-- What ConnectAsync comes to by what the calls return. With a socket on which TCP_NODELAY is set:
-- it is waited for if connect returns 0 or EINPROGRESS, and on any other errno it is closed before
-- the attempt is given up. Without a socket the attempt is given up on EMFILE, ENFILE, ENOBUFS and
-- ENOMEM. A failed setsockopt or close, and any other errno of socket, is fatal.
pub connect_async-Attempted :
    (socket : Socket) (setsockopt close : ℕ → Bool) (connect : ℕ → Option ℕ)
    → Attempted setsockopt close connect socket (connect_async socket setsockopt close connect)
unfolding connect_async
connect_async-Attempted (opened fd) setsockopt close connect =
    connect_opened-Attempted (opened fd) setsockopt close connect fd
connect_async-Attempted (refused e) setsockopt close connect =
    elim (Bool-cases (out_of_resources e)) [
      | inl few ↦
          subst (Attempted setsockopt close connect (refused e)) (ground (arith, few))
            (short (out_of_resources-IsShortage e few))
      | inr many ↦
          subst (Attempted setsockopt close connect (refused e)) (ground (arith, many))
            (broken (not-IsShortage e many))
    ]
