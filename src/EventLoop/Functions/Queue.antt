-- ===== src/EventLoop/Functions/Queue.antt =====
-- The pipe and the heap of scheduled functions (src/event_loop.cc) as a queue.
use hcproxy.Common.{
  ℕ, ◌^◌, ◌<◌, ◌≤◌, ◌≡◌, ◌≢◌, refl, ap, sym, ◌∙◌, Option, none, some, List, [], ◌∷◌, ◌++◌,
  append-nil, append_assoc, arith, length, take, drop,
}
use hcproxy.NodeList.{Ptr, update}
use hcproxy.Parser.{Bytes}
use hcproxy.EventLoop.Functions.{PipeKernel, Functions, to_bytes, pointer_size}

-- What write(2), read(2) and pipe(7) document of a pipe in blocking mode: a write of a few bytes takes
-- them all, behind what the pipe holds, and a read takes what was asked for from the front if the pipe
-- holds as much.
pub record IsDocumented (k : PipeKernel) : Type 0 where
  pub writes :
      (bytes q : Bytes) → length bytes ≤ 4096 → k.write bytes q ≡ (length bytes, q ++ bytes)
  pub reads : (n : ℕ) (q : Bytes) → n ≤ length q → k.read n q ≡ (take n q, drop n q)

-- the functions that wait, with the addresses of their objects
abbrev pub Waiting : Type 0 → Type 0
Waiting F = List (Ptr × F)

module _ {F : Type 0} where
  -- what the pipe holds for them
  unfoldable pub addresses : Waiting F → Bytes
  addresses [] = []
  addresses ((p, f) ∷ q) = to_bytes pointer_size p ++ addresses q

  -- Each object is at its address, which is a pointer's, and no two are at one address.
  abbrev pub Stored : (Ptr → Option F) → Waiting F → Type 0
  Stored heap [] = Unit {0}
  Stored heap ((p, f) ∷ q) = (heap p ≡ some f) × (p < 256 ^ pointer_size) × Stored heap q

  abbrev pub Apart : Ptr → Waiting F → Type 0
  Apart a [] = Unit {0}
  Apart a ((p, f) ∷ q) = (a ≢ p) × Apart a q

  abbrev pub Distinct : Waiting F → Type 0
  Distinct [] = Unit {0}
  Distinct ((p, f) ∷ q) = Apart p q × Distinct q

  -- The pipe and the heap stand for a queue of functions.
  pub record Queued (s : Functions F) (q : Waiting F) : Type 0 where
    pub piped : s.pipe ≡ addresses q
    pub stored : Stored s.heap q
    pub distinct : Distinct q

  -- While a function runs its object is still there.
  pub record Running (s : Functions F) (p : Ptr) (f : F) (q : Waiting F) : Type 0 where
    pub queued : Queued s q
    pub there : s.heap p ≡ some f
    pub apart : Apart p q

  pub addresses-snoc :
      (q : Waiting F) (p : Ptr) (f : F)
      → addresses (q ++ (p, f) ∷ []) ≡ addresses q ++ to_bytes pointer_size p
  unfolding addresses
  addresses-snoc [] p f = append-nil (to_bytes pointer_size p)
  addresses-snoc ((r, g) ∷ q) p f =
      ap (λ (x : Bytes). to_bytes pointer_size r ++ x) (addresses-snoc q p f)
      ∙ sym (append_assoc (to_bytes pointer_size r) (addresses q) (to_bytes pointer_size p))

  pub addresses-first :
      (q : Waiting F) (p : Ptr) (f : F)
      → addresses ((p, f) ∷ q) ≡ to_bytes pointer_size p ++ addresses q
  unfolding addresses
  addresses-first q p f = refl

  -- an address that holds nothing is apart from those of the queue
  pub Apart-free :
      (heap : Ptr → Option F) (a : Ptr) (q : Waiting F) → heap a ≡ none → Stored heap q → Apart a q
  Apart-free heap a [] n s = tt
  Apart-free heap a ((p, f) ∷ q) n s = (λ e. let same = ap heap e in cc, Apart-free heap a q n s.2)

  pub Apart-append :
      (a p : Ptr) (f : F) (q : Waiting F) → Apart a q → a ≢ p → Apart a (q ++ (p, f) ∷ [])
  Apart-append a p f [] s ne = (ne, tt)
  Apart-append a p f ((r, g) ∷ q) s ne = (s.0, Apart-append a p f q s.1 ne)

  pub Distinct-append :
      (p : Ptr) (f : F) (q : Waiting F) → Distinct q → Apart p q → Distinct (q ++ (p, f) ∷ [])
  Distinct-append p f [] d a = (tt, tt)
  Distinct-append p f ((r, g) ∷ q) d a =
      (Apart-append r p f q d.0 (λ e. a.0 (sym e)), Distinct-append p f q d.1 a.1)

  -- writing at an address apart from those of the queue
  pub Stored-update :
      (heap : Ptr → Option F) (a : Ptr) (v : Option F) (q : Waiting F)
      → Apart a q
      → Stored heap q
      → Stored (update heap a v) q
  Stored-update heap a v [] x s = tt
  Stored-update heap a v ((p, f) ∷ q) x s =
      let ne = x.0 in let at = s.0 in (ground arith, s.1, Stored-update heap a v q x.1 s.2)

  pub Stored-append :
      (heap : Ptr → Option F) (p : Ptr) (f : F) (q : Waiting F)
      → Stored heap q
      → heap p ≡ some f
      → p < 256 ^ pointer_size
      → Stored heap (q ++ (p, f) ∷ [])
  Stored-append heap p f [] s e h = (e, h, tt)
  Stored-append heap p f ((r, g) ∷ q) s e h = (s.0, s.1, Stored-append heap p f q s.2 e h)
