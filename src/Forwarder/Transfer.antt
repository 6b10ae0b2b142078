-- ===== src/Forwarder/Transfer.antt =====
-- `WriteFrom` and `ReadTo` of src/forwarder.cc, between a socket and a pipe.
use hcproxy.Common.{
  take-append-drop, ◌⊎◌, ℕ, zero, suc, ◌+◌, ◌-◌, ◌≤◌, ◌≡◌, ◌≢◌, refl, ap, sym, ◌∙◌, subst, Bool,
  true, false, none, some, ==_refl, ==_ne, [], ◌∷◌, ◌++◌, arith, Outcome, ok, ◌==◌, length, take,
  drop, length-append, append-nil, Bool-cases, eq-cases, nil-cases, inl, inr, pass, pass_not,
  le→leb, length-pos,
}
use hcproxy.Parser.{Bytes, ReadResult, received, failed, eagain}
use hcproxy.Forwarder.Causes.{
  Fills, some_came, none_to_come, none_yet, broke_off, Filling, no_room, asked, Drains, some_went,
  none_went, some_lost, splice_failed, offered, Draining, waits, at_end, not_ready,
}
use hcproxy.Forwarder.{
  IoStatus, data_moved, eof, error, no_op, Buffer, SpliceResult, moved, stopped, Kernel, Io,
  would_block, take_in, write_from, give_out, read_to,
}

-- What splice(2) documents: it moves no more bytes than asked for, and out of a pipe that holds some
-- it moves one at least; and closing an open descriptor and FIONREAD on an open pipe succeed.
pub record IsDocumented {W : Type 0} (k : Kernel W) : Type 0 where
  pub in_bounded :
      (fd n : ℕ) (w : W) (c : Bytes) → (k.splice_in fd n w).0 ≡ received c → length c ≤ n
  pub out_bounded : (q : Bytes) (fd n m : ℕ) (w : W) → (k.splice_out q fd n w).0 ≡ moved m → m ≤ n
  pub out_moves :
      (q : Bytes) (fd n : ℕ) (w : W) → q ≢ [] → 1 ≤ n → (k.splice_out q fd n w).0 ≢ moved 0
  pub counts_left : (q : Bytes) (fd n e : ℕ) (w : W) → (k.splice_out q fd n w).0 ≢ stopped e none
  pub closes : k.close ≡ true

-- `size_` is what the pipe holds, and no more than its capacity.
pub record IsSound (b : Buffer) : Type 0 where
  pub counts : b.size ≡ length b.queued
  pub fits : b.size ≤ b.capacity

-- whether the end of the pipe that a transfer uses stays open
abbrev pub goes_on : IoStatus → Bool
goes_on data_moved = true
goes_on no_op = true
goes_on eof = false
goes_on error = false

-- the bytes that a `splice` has moved into the pipe, and the number that one has moved out of it
abbrev pub taken : ReadResult → Bytes
taken (received c) = c
taken (failed e) = []

abbrev pub given : SpliceResult → ℕ
given (moved n) = n
given (stopped e left) = 0

-- A transfer into the pipe: `chunk` goes in behind what the pipe holds.
pub record Filled {W : Type 0} (k : Kernel W) (fd : ℕ) (w : W) (b : Buffer) (r : Outcome (Io W))
    : Type 0 where
  pub status : IoStatus
  pub after : Buffer
  pub kernel : W
  pub chunk : Bytes
  pub returns : r ≡ ok (status, after, kernel)
  pub queued : after.queued ≡ b.queued ++ chunk
  pub sound : IsSound after
  pub moves : (status ≡ data_moved → chunk ≢ []) × (status ≢ data_moved → chunk ≡ [])
  pub cause : Filling k fd w b status chunk kernel
  pub write_end : after.write_open ≡ goes_on status
  pub origin :
      ((kernel ≡ w) × (chunk ≡ []))
      ⊎ ((n : ℕ) × (kernel ≡ (k.splice_in fd n w).1) × (chunk ≡ taken (k.splice_in fd n w).0))
  pub kept : (after.read_open ≡ b.read_open) × (after.capacity ≡ b.capacity)

-- A transfer out of the pipe: `chunk` is taken from the front.
pub record Drained {W : Type 0} (k : Kernel W) (fd : ℕ) (w : W) (b : Buffer) (r : Outcome (Io W))
    : Type 0 where
  pub status : IoStatus
  pub after : Buffer
  pub kernel : W
  pub chunk : Bytes
  pub returns : r ≡ ok (status, after, kernel)
  pub queued : b.queued ≡ chunk ++ after.queued
  pub sound : IsSound after
  pub moves : (status ≡ data_moved → chunk ≢ []) × (status ≢ data_moved → chunk ≡ [])
  pub ends : status ≡ eof → (b.queued ≡ []) × (b.write_open ≡ false)
  pub cause : Draining k fd w b status (length chunk) kernel
  pub read_end : after.read_open ≡ goes_on status
  pub target :
      ((kernel ≡ w) × (chunk ≡ []))
      ⊎ ((kernel ≡ (k.splice_out b.queued fd b.size w).1)
          × (length chunk ≡ given (k.splice_out b.queued fd b.size w).0))
  pub kept : (after.write_open ≡ b.write_open) × (after.capacity ≡ b.capacity)

length-take-drop :
    (n : ℕ) (xs : Bytes)
    → n ≤ length xs
    → (length (take n xs) ≡ n) × (length (drop n xs) ≡ length xs - n)
length-take-drop zero xs h = (refl, omega arith)
length-take-drop (suc n) [] h = absurd (omega arith)
length-take-drop (suc n) (x ∷ xs) h =
    let (a, b) = length-take-drop n xs (omega arith) in (omega arith, omega arith)

module _ {W : Type 0} (k : Kernel W) (d : IsDocumented k) (b : Buffer) (s : IsSound b) where
  From : ℕ → W → W → Bytes → Type 0
  From fd w x chunk =
      ((x ≡ w) × (chunk ≡ []))
      ⊎ ((n : ℕ) × (x ≡ (k.splice_in fd n w).1) × (chunk ≡ taken (k.splice_in fd n w).0))

  Filled-still :
      (fd : ℕ) (w : W) (r : Outcome (Io W)) (v : IoStatus) (x : W) (o : Bool)
      → v ≢ data_moved
      → o ≡ goes_on v
      → From fd w x []
      → Filling k fd w b v [] x
      → r ≡ ok (v, record b { write_open = o }, x)
      → Filled k fd w b r
  unfolding From
  Filled-still fd w r v x o still g from cause e = record {
    cause = cause;
    status = v;
    after = record b { write_open = o };
    kernel = x;
    origin = from;
    chunk = [];
    returns = e;
    queued = sym (append-nil b.queued);
    sound = record { counts = s.counts; fits = s.fits };
    moves = (λ m. absurd (still m), λ _. refl);
    write_end = g;
    kept = (refl, refl);
  }

  take_in-Filled :
      (fd : ℕ) (w : W) (r : ReadResult) (x : W)
      → b.write_open ≡ true
      → From fd w x (taken r)
      → ((s : IoStatus) (c : Bytes) → Fills r s c → Filling k fd w b s c x)
      → ((c : Bytes) → r ≡ received c → length c ≤ b.capacity - b.size)
      → Filled k fd w b (take_in k r b x)
  unfolding take_in From
  take_in-Filled fd w (failed e) x o from by f = elim (eq-cases e eagain) [
    | inl again ↦
        Filled-still fd w _ no_op x true (λ x. cc) refl from
          (by no_op [] (subst (λ i. Fills (failed i) no_op []) (sym again) none_yet))
          (rw (again, sym o) refl)
    | inr broken ↦
        Filled-still fd w _ error x false (λ x. cc) refl from (by error [] (broke_off broken))
          (rw (==_ne broken, d.closes) refl)
  ]
  take_in-Filled fd w (received []) x o from by f =
      Filled-still fd w _ eof x false (λ x. cc) refl from (by eof [] none_to_come)
        (rw d.closes refl)
  take_in-Filled fd w (received (y ∷ ys)) x o from by f =
      let small = f (y ∷ ys) refl in
      let room : b.size + length (y ∷ ys) ≤ b.capacity = omega (arith, s.fits) in
      record {
        status = data_moved;
        after = record b { size = b.size + length (y ∷ ys); queued = b.queued ++ y ∷ ys };
        kernel = x;
        chunk = y ∷ ys;
        returns = rw (pass (le→leb _ _ room)) refl;
        queued = refl;
        sound = record {
          counts = omega (arith, s.counts, length-append b.queued (y ∷ ys));
          fits = room;
        };
        moves = (λ _ e. cc, λ n. absurd (n refl));
        cause = by data_moved (y ∷ ys) (some_came (λ e. cc));
        write_end = o;
        origin = from;
        kept = (refl, refl);
      }

  -- WriteFrom with an open write end, on a splice that is as documented, passes all checks. If the
  -- pipe is full it does nothing and reports so. Else it asks splice for as many bytes as there is
  -- room for, and by the result it reports data, which it has put behind what the pipe holds, the
  -- end of the input, nothing for EAGAIN, or an error; it closes the write end exactly at the end
  -- of the input and at an error.
  pub write_from-Filled :
      (fd : ℕ) (w : W) → b.write_open ≡ true → Filled k fd w b (write_from k fd b w)
  unfolding write_from From
  write_from-Filled fd w o = elim (eq-cases b.size b.capacity) [
    | inl full ↦
        Filled-still fd w _ no_op w true (λ x. cc) refl (inl (refl, refl)) (no_room full)
          (rw (pass o, pass (le→leb _ _ s.fits)) (rw (full, sym o) (ground arith)))
    | inr room ↦ subst (Filled k fd w b) (rw (pass o, pass (le→leb _ _ s.fits)) (ground arith)) (
        take_in-Filled fd w (k.splice_in fd (b.capacity - b.size) w).0
          (k.splice_in fd (b.capacity - b.size) w).1 o (inr (b.capacity - b.size, refl, refl))
          (λ t c. asked (omega (arith, s.fits, room))) (d.in_bounded fd (b.capacity - b.size) w))
  ]

  To : ℕ → W → W → Bytes → Type 0
  To fd w x chunk =
      ((x ≡ w) × (chunk ≡ []))
      ⊎ ((x ≡ (k.splice_out b.queued fd b.size w).1)
          × (length chunk ≡ given (k.splice_out b.queued fd b.size w).0))

  Drained-still :
      (fd : ℕ) (w : W) (r : Outcome (Io W)) (v : IoStatus) (x : W) (o : Bool)
      → v ≢ data_moved
      → (v ≡ eof → (b.queued ≡ []) × (b.write_open ≡ false))
      → o ≡ goes_on v
      → To fd w x []
      → Draining k fd w b v 0 x
      → r ≡ ok (v, record b { read_open = o }, x)
      → Drained k fd w b r
  unfolding To
  Drained-still fd w r v x o still end g to cause e = record {
    cause = cause;
    status = v;
    after = record b { read_open = o };
    kernel = x;
    target = to;
    chunk = [];
    returns = e;
    queued = refl;
    sound = record { counts = s.counts; fits = s.fits };
    moves = (λ m. absurd (still m), λ _. refl);
    ends = end;
    read_end = g;
    kept = (refl, refl);
  }

  give_out-Drained :
      (fd : ℕ) (w : W) (r : SpliceResult) (x : W)
      → (x ≡ (k.splice_out b.queued fd b.size w).1)
        × (given r ≡ given (k.splice_out b.queued fd b.size w).0)
      → b.read_open ≡ true
      → ((s : IoStatus) (n : ℕ) → Drains b.size r s n → Draining k fd w b s n x)
      → ((m : ℕ) → r ≡ moved m → m ≤ b.size)
      → r ≢ moved 0
      → ((e : ℕ) → r ≢ stopped e none)
      → Drained k fd w b (give_out k r b x)
  unfolding give_out To
  give_out-Drained fd w (stopped e none) x to o by f n known = absurd (known e refl)
  give_out-Drained fd w (stopped e (some left)) x to o by f n known = elim (eq-cases e eagain) [
    | inr broken ↦
        Drained-still fd w _ error x false (λ x. cc) (λ x. cc) refl (inr to)
          (by error 0 (splice_failed broken)) (rw (==_ne broken, d.closes) refl)
    | inl again ↦ elim (eq-cases left b.size) [
      | inl whole ↦
          Drained-still fd w _ no_op x true (λ x. cc) (λ x. cc) refl (inr to)
            (by no_op 0 (
              subst (λ i. Drains b.size (stopped i (some left)) no_op 0) (sym again)
                (subst (λ i. Drains b.size (stopped eagain (some i)) no_op 0) (sym whole)
                  none_went)))
            (rw (again, whole, ==_refl b.size, sym o) refl)
      | inr lost ↦
          Drained-still fd w _ error x false (λ x. cc) (λ x. cc) refl (inr to)
            (by error 0 (
              subst (λ i. Drains b.size (stopped i (some left)) error 0) (sym again)
                (some_lost lost)))
            (rw (again, ==_ne lost, d.closes) refl)
    ]
  ]
  give_out-Drained fd w (moved zero) x to o by f n known = absurd (n refl)
  give_out-Drained fd w (moved (suc m)) x to o by f n known =
      let small = f (suc m) refl in
      let some_moved : (suc m == 0) ≡ false = ground arith in
      let len = length-take-drop (suc m) b.queued (omega (arith, s.counts)) in
      record {
        status = data_moved;
        after = record b { size = b.size - suc m; queued = drop (suc m) b.queued };
        kernel = x;
        target = inr (to.0, len.0 ∙ to.1);
        chunk = take (suc m) b.queued;
        returns =
            rw
              (
                pass_not some_moved,
                pass (le→leb _ _ small),
                pass (le→leb (b.size - suc m) b.capacity (omega (arith, s.fits))),
              )
              refl;
        queued = sym (take-append-drop (suc m) b.queued);
        sound = record { counts = omega (arith, s.counts, len.1); fits = omega (arith, s.fits) };
        moves = (λ _ e. absurd (omega (arith, len.0, ap (length {0}) e)), λ x. absurd (x refl));
        ends = λ x. cc;
        cause =
            subst (λ i. Draining k fd w b data_moved i x) (sym len.0)
              (by data_moved (suc m) (some_went (omega arith)));
        read_end = o;
        kept = (refl, refl);
      }

  nothing_queued : b.size ≡ 0 → b.queued ≡ []
  nothing_queued e = elim (nil-cases b.queued) [
    | inl n ↦ n
    | inr n ↦ absurd (omega (arith, s.counts, length-pos b.queued n))
  ]

  read_to-empty :
      (fd : ℕ) (w : W) → b.read_open ≡ true → b.size ≡ 0 → Drained k fd w b (read_to k fd b w)
  unfolding read_to To
  read_to-empty fd w o e = elim (Bool-cases b.write_open) [
    | inl more ↦
        Drained-still fd w _ no_op w true (λ x. cc) (λ x. cc) refl (inl (refl, refl)) (waits e more)
          (rw (pass o) (rw (e, more, sym o) refl))
    | inr last ↦
        Drained-still fd w _ eof w false (λ x. cc) (λ _. (nothing_queued e, last)) refl
          (inl (refl, refl)) (at_end e last) (rw (pass o) (rw (e, last, d.closes) refl))
  ]

  read_to-some :
      (fd : ℕ) (w : W) → b.read_open ≡ true → b.size ≢ 0 → Drained k fd w b (read_to k fd b w)
  unfolding read_to To
  read_to-some fd w o ne = elim (Bool-cases (would_block (k.probe fd w))) [
    | inl blocks ↦
        Drained-still fd w _ no_op w true (λ x. cc) (λ x. cc) refl (inl (refl, refl))
          (not_ready ne blocks) (rw (pass o) (rw (blocks, sym o) (ground arith)))
    | inr ready ↦ subst (Drained k fd w b) (rw (pass o) (rw ready (ground arith))) (
        give_out-Drained fd w (k.splice_out b.queued fd b.size w).0
          (k.splice_out b.queued fd b.size w).1 (refl, refl) o (λ s n. offered ne ready)
          (λ m. d.out_bounded b.queued fd b.size m w)
          (d.out_moves b.queued fd b.size w (λ e. ne (s.counts ∙ ap (length {0}) e))
            (omega (arith, ne)))
          (λ e. d.counts_left b.queued fd b.size e w))
  ]

  -- ReadTo with an open read end, where splice is as documented and FIONREAD succeeds, passes all
  -- checks. On an empty pipe it reports the end if the write end is closed, and else nothing;
  -- nothing, too, if the socket would block. Else it gives splice all that the pipe holds, and by
  -- the result it reports data, taken from the front of the pipe, nothing for EAGAIN if the pipe
  -- still holds all, and an error for EAGAIN otherwise and for any other errno; it closes the read
  -- end exactly at the end and at an error.
  pub read_to-Drained : (fd : ℕ) (w : W) → b.read_open ≡ true → Drained k fd w b (read_to k fd b w)
  read_to-Drained fd w o = elim (eq-cases b.size 0) [
    | inl e ↦ read_to-empty fd w o e
    | inr ne ↦ read_to-some fd w o ne
  ]
