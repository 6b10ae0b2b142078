-- ===== src/EventLoop/Functions/Refines.antt =====
-- `Schedule` and `PopFunc` of src/event_loop.cc refine the two ends of a queue of functions.
use hcproxy.Common.{
  ℕ, zero, suc, ◌^◌, ◌<◌, ◌≡◌, refl, ap, sym, ◌∙◌, false, none, some, [], ◌∷◌, ◌++◌, arith, Outcome,
  ok, length, take, drop, length-append,
}
use hcproxy.NodeList.{Ptr, update, update_self}
use hcproxy.Parser.{Bytes}
use hcproxy.EventLoop.Functions.{
  PipeKernel, Functions, to_bytes, pointer_size, schedule, call_at, pop_func,
}
use hcproxy.EventLoop.Functions.Words.{length-to_bytes, of_bytes-to_bytes}
use hcproxy.EventLoop.Functions.Queue.{
  IsDocumented, Waiting, addresses, Queued, Running, addresses-snoc, addresses-first, Apart-free,
  Distinct-append, Stored-update, Stored-append,
}

-- The front of what was put together, and the rest.
take-front : (n : ℕ) (xs ys : Bytes) → length xs ≡ n → take n (xs ++ ys) ≡ xs
take-front zero [] ys e = refl
take-front zero (x ∷ xs) ys e = absurd (omega (arith, e))
take-front (suc n) [] ys e = absurd (omega (arith, e))
take-front (suc n) (x ∷ xs) ys e =
    ap (λ (zs : Bytes). x ∷ zs) (take-front n xs ys (omega (arith, e)))

drop-front : (n : ℕ) (xs ys : Bytes) → length xs ≡ n → drop n (xs ++ ys) ≡ ys
drop-front zero [] ys e = refl
drop-front zero (x ∷ xs) ys e = absurd (omega (arith, e))
drop-front (suc n) [] ys e = absurd (omega (arith, e))
drop-front (suc n) (x ∷ xs) ys e = drop-front n xs ys (omega (arith, e))

module _ {F : Type 0} (k : PipeKernel) (documented : IsDocumented k) where
  module _ (s : Functions F) (q : Waiting F) (p : Ptr) (f : F) (v : Queued s q)
      (free : s.heap p ≡ none) (fits : p < 256 ^ pointer_size) where
    scheduled : Functions F
    scheduled = record { heap = update s.heap p (some f); pipe = s.pipe ++ to_bytes pointer_size p }

    -- `Schedule` from another thread, of a function that is not empty, with an object at an address that
    -- was free, passes its checks and puts the function behind those that wait.
    pub schedule-Queued :
        (u : Functions F) × (schedule k false p (some f) s ≡ ok u)
        × Queued u (q ++ (p, f) ∷ [])
        × (u.heap ≡ update s.heap p (some f))
    unfolding schedule scheduled
    schedule-Queued =
        let apart = Apart-free s.heap p q free v.stored in
        (
          scheduled,
          rw
              (
                documented.writes (to_bytes pointer_size p) s.pipe
                    (omega (arith, length-to_bytes 8 p)),
                length-to_bytes 8 p,
              )
              refl,
          record {
            piped =
                ap (λ (x : Bytes). x ++ to_bytes pointer_size p) v.piped
                ∙ sym (addresses-snoc q p f);
            stored =
                Stored-append (update s.heap p (some f)) p f q
                  (Stored-update s.heap p (some f) q apart v.stored) (update_self s.heap p (some f))
                  fits;
            distinct = Distinct-append p f q v.distinct apart;
          },
          refl,
        )

  module _ {L : Type 0} (run : F → Functions F × L → Outcome (Functions F × L)) (s : Functions F)
      (w : L) (q : Waiting F) (p : Ptr) (f : F) (v : Queued s ((p, f) ∷ q)) where
    -- the state in which the function is called
    abbrev pub popped : Functions F
    popped = record { heap = s.heap; pipe = addresses q }

    read_first : k.read pointer_size s.pipe ≡ (to_bytes pointer_size p, addresses q)
    read_first =
        let at : s.pipe ≡ to_bytes pointer_size p ++ addresses q =
          v.piped ∙ addresses-first q p f in
        let long = length-append (to_bytes pointer_size p) (addresses q) in
        documented.reads pointer_size s.pipe
          (omega (arith, ap (length {0}) at, long, length-to_bytes 8 p))
        ∙ ap (λ (x : Bytes). (x, drop 8 s.pipe))
            (ap (take 8) at ∙ take-front 8 (to_bytes 8 p) (addresses q) (length-to_bytes 8 p))
        ∙ ap (λ (x : Bytes). (to_bytes 8 p, x))
            (ap (drop 8) at ∙ drop-front 8 (to_bytes 8 p) (addresses q) (length-to_bytes 8 p))

    -- `PopFunc`, where functions wait, calls the first of them, whose object is still there. If the call
    -- returns and leaves that object and the queue alone, but for what was scheduled meanwhile, then the
    -- object is deleted, and the others and what was scheduled meanwhile are left, in this order.
    pub pop_func-Queued :
        (x : Functions F) (y : L) (more : Waiting F)
        → (Running popped p f q → (run f (popped, w) ≡ ok (x, y)) × Running x p f (q ++ more))
        → (u : Functions F) × (pop_func k run (s, w) ≡ ok (u, y))
          × Queued u (q ++ more)
          × (u.heap p ≡ none)
    unfolding pop_func call_at
    pop_func-Queued x y more called =
        let (done, r) = called (record {
          queued = record { piped = refl; stored = v.stored.2; distinct = v.distinct.1 };
          there = v.stored.0;
          apart = v.distinct.0;
        }) in
        (
          record x { heap = update x.heap p none },
          rw (read_first, length-to_bytes 8 p, of_bytes-to_bytes 8 p v.stored.1, v.stored.0, done)
              refl,
          record {
            piped = r.queued.piped;
            stored = Stored-update x.heap p none (q ++ more) r.apart r.queued.stored;
            distinct = r.queued.distinct;
          },
          update_self x.heap p none,
        )
