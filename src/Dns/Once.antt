-- ===== src/Dns/Once.antt =====
-- `Resolve` and the parts of `ProcessCacheEntry` of src/dns.cc, interleaved in any order.
use hcproxy.Common.{
  ℕ, ◌+◌, ◌≡◌, refl, ap, sym, ◌∙◌, subst, Option-cases, Bool-cases, inl, inr, Bool, true, false,
  Option, none, some, List, [], ◌∷◌, ◌++◌, arith, Outcome, ok, fatal, stuck, >>=-eq-ok, ◌==◌,
  length,
}
use hcproxy.Dns.{
  Ring, advance, CacheData, Options, use_entry, fresh, Reaction, schedule, leave, call,
  append_callback, is_empty, react_cached, resolve, Start, erase, look_up, ready, start, rotate,
  store, hand_out, use_each, deliver,
}

abbrev pub one_if : Bool → ℕ
one_if true = 1
one_if false = 0

abbrev pub count : ℕ → List ℕ → ℕ
count a [] = 0
count a (x ∷ xs) = one_if (a == x) + count a xs

-- Where the task of an entry is: there is no entry, the task is scheduled, it looks the address up, or
-- it has taken the callbacks and is about to schedule itself again.
pub data Phase : Type 0 where
  absent waiting looking_up calling : Phase

-- an entry, its task, and the callbacks that were asked for and that were called so far
pub record World : Type 0 where
  pub entry : Option CacheData
  pub phase : Phase
  pub asked : List ℕ
  pub called : List ℕ

-- A call of `Resolve`, or what the task does from one change of the lock to the next.
pub data Move : Type 0 where
  ask : (now cb : ℕ) → Move
  begin : (now : ℕ) → Move
  found : (fuel now : ℕ) → Option (List ℕ) → Move
  again : Move

abbrev pub names : List (ℕ × Option Ring) → List ℕ
names [] = []
names ((cb, a) ∷ cs) = cb ∷ names cs

abbrev reacted : ℕ → World → CacheData × Reaction → World
reacted cb w (c, schedule) = record w { entry = some c; phase = waiting; asked = cb ∷ w.asked }
reacted cb w (c, leave) = record w { entry = some c; asked = cb ∷ w.asked }
reacted cb w (c, call a) = record w { entry = some c; asked = cb ∷ w.asked; called = cb ∷ w.called }

abbrev delivered : World → List (ℕ × Option Ring) × CacheData → World
delivered w (calls, c) = record w {
  entry = some c;
  phase = calling;
  called = names calls ++ w.called;
}

abbrev started : ℕ → World → CacheData → Start → World
started now w c erase = record w { entry = none; phase = absent }
started now w c look_up = record w { phase = looking_up }
started now w c ready = delivered w (deliver now c)

abbrev stored : ℕ → World → Outcome CacheData → Option World
stored now w (ok c) = some (delivered w (deliver now c))
stored now w fatal = none
stored now w stuck = none

-- a move, where it is possible
unfoldable pub step : Options → Move → Phase → Option CacheData → World → Option World
step o (ask now cb) phase entry w = some (reacted cb w (resolve o now cb entry))
step o (begin now) waiting (some c) w = some (started now w c (start o now c))
step o (found fuel now addrs) looking_up (some c) w = stored now w (store fuel now addrs c)
step o again calling (some c) w = some (record w { phase = waiting })
step _ _ _ _ _ = none

abbrev pub pending : Option CacheData → List ℕ
pending none = []
pending (some c) = c.callbacks

-- The task is there exactly while the entry is, and leaves no callback behind when it has taken them.
abbrev pub Placed : Phase → Option CacheData → Type 0
Placed absent none = Unit {0}
Placed waiting (some c) = Unit {0}
Placed looking_up (some c) = Unit {0}
Placed calling (some c) = c.callbacks ≡ []
Placed _ _ = ⊥

-- Each callback that was asked for has been called, or waits for the task.
pub record Once (w : World) : Type 0 where
  pub placed : Placed w.phase w.entry
  pub counts : (x : ℕ) → count x w.asked ≡ count x w.called + count x (pending w.entry)

count-append : (x : ℕ) (xs ys : List ℕ) → count x (xs ++ ys) ≡ count x xs + count x ys
count-append x [] ys = omega arith
count-append x (y ∷ xs) ys = omega (arith, count-append x xs ys)

count-append_callback :
    (x : ℕ) (xs : List ℕ) (cb : ℕ) → count x (append_callback xs cb) ≡ one_if (x == cb) + count x xs
count-append_callback x [] cb = refl
count-append_callback x (y ∷ xs) cb = omega (arith, count-append_callback x xs cb)

names-hand_out : (cbs : List ℕ) (a : Option Ring) → names (hand_out cbs a) ≡ cbs
unfolding hand_out
names-hand_out [] a = refl
names-hand_out (cb ∷ cbs) a = ap (◌∷◌ cb) (names-hand_out cbs (advance a))

use_each_callbacks :
    (now : ℕ) (cbs : List ℕ) (c : CacheData) → (use_each now cbs c).callbacks ≡ c.callbacks
unfolding use_each use_entry
use_each_callbacks now [] c = refl
use_each_callbacks now (cb ∷ cbs) c = use_each_callbacks now cbs (use_entry now c)

store_callbacks :
    (fuel now : ℕ) (addrs : Option (List ℕ)) (c d : CacheData)
    → store fuel now addrs c ≡ ok d
    → d.callbacks ≡ c.callbacks
unfolding store
store_callbacks fuel now none c d e =
    ap (λ (x : Outcome CacheData). elim x [ ok y ↦ y.callbacks | _ ↦ c.callbacks ]) (sym e)
store_callbacks fuel now (some addrs) c d e =
    let (r, stored, ran) = >>=-eq-ok (rotate fuel (length addrs) 0 c.use_count 0) _ e in
    ap (λ (x : Outcome CacheData). elim x [ ok y ↦ y.callbacks | _ ↦ c.callbacks ]) (sym stored)

Placed-same :
    (phase : Phase) (c d : CacheData)
    → d.callbacks ≡ c.callbacks
    → Placed phase (some c)
    → Placed phase (some d)
Placed-same absent c d e p = p
Placed-same waiting c d e p = p
Placed-same looking_up c d e p = p
Placed-same calling c d e p = e ∙ p

Placed-more :
    (phase : Phase) (c d : CacheData) (x : ℕ) (xs : List ℕ)
    → c.callbacks ≡ x ∷ xs
    → Placed phase (some c)
    → Placed phase (some d)
Placed-more absent c d x xs e p = p
Placed-more waiting c d x xs e p = p
Placed-more looking_up c d x xs e p = p
Placed-more calling c d x xs e p = absurd (cc)

is_empty-nil : (xs : List ℕ) → is_empty xs ≡ true → xs ≡ []
is_empty-nil [] h = refl
is_empty-nil (x ∷ xs) h = cc

start-erase : (o : Options) (now : ℕ) (c : CacheData) → start o now c ≡ erase → c.callbacks ≡ []
unfolding start
start-erase o now c e = elim (Bool-cases (is_empty c.callbacks)) [
  | inl h ↦ is_empty-nil c.callbacks h
  | inr h ↦ absurd (ground arith)
]

some_inj {ℓ} : {A : Type ℓ} {a b : A} → some a ≡ some b → a ≡ b
some_inj {a} e = ap (λ x. elim x [ some y ↦ y | none ↦ a ]) e

module _ (o : Options) (w : World) (v : Once w) where
  pending-count :
      (entry : Option CacheData)
      → w.entry ≡ entry
      → (x : ℕ) → count x w.asked ≡ count x w.called + count x (pending entry)
  pending-count entry e x = v.counts x ∙ ap (λ y. count x w.called + count x (pending y)) e

  Placed-at : (entry : Option CacheData) → w.entry ≡ entry → Placed w.phase entry
  Placed-at entry e = subst (Placed w.phase) e v.placed

  reacted_new : (now cb : ℕ) → w.entry ≡ none → Once (reacted cb w (resolve o now cb none))
  unfolding resolve fresh
  reacted_new now cb e = record { placed = tt; counts = λ x. omega (arith, pending-count none e x) }

  reacted_cached :
      (now cb : ℕ) (c : CacheData) (cbs : List ℕ)
      → w.entry ≡ some c
      → c.callbacks ≡ cbs
      → Once (reacted cb w (react_cached o now cb c cbs))
  unfolding react_cached use_entry
  reacted_cached now cb c [] e h = record {
    placed = Placed-same w.phase c _ refl (Placed-at (some c) e);
    counts = λ x. omega (arith, pending-count (some c) e x);
  }
  reacted_cached now cb c (y ∷ ys) e h = record {
    placed = Placed-more w.phase c _ y ys h (Placed-at (some c) e);
    counts = λ x. omega (arith, pending-count (some c) e x, count-append_callback x c.callbacks cb);
  }

  delivered-Once :
      (now : ℕ) (c d : CacheData)
      → w.entry ≡ some c
      → d.callbacks ≡ c.callbacks
      → Once (delivered w (deliver now d))
  unfolding deliver
  delivered-Once now c d e h = record {
    placed = use_each_callbacks now d.callbacks (record d { callbacks = [] });
    counts = λ x. omega (
      arith,
      pending-count (some c) e x,
      count-append x (names (hand_out d.callbacks d.addr)) w.called,
      ap (count x) (names-hand_out d.callbacks d.addr),
      ap (count x) h,
      ap (count x) (use_each_callbacks now d.callbacks (record d { callbacks = [] })),
    );
  }

  started-Once :
      (now : ℕ) (c : CacheData) (s : Start)
      → w.phase ≡ waiting
      → w.entry ≡ some c
      → (s ≡ erase → c.callbacks ≡ [])
      → Once (started now w c s)
  started-Once now c erase ph e h = record {
    placed = tt;
    counts = λ x. omega (arith, pending-count (some c) e x, ap (count x) (h refl));
  }
  started-Once now c look_up ph e h = record {
    placed = subst (Placed looking_up) (sym e) tt;
    counts = v.counts;
  }
  started-Once now c ready ph e h = delivered-Once now c c e refl

  stored-Once :
      (now : ℕ) (c : CacheData) (r : Outcome CacheData) (u : World)
      → w.entry ≡ some c
      → ((d : CacheData) → r ≡ ok d → d.callbacks ≡ c.callbacks)
      → stored now w r ≡ some u
      → Once u
  stored-Once now c (ok d) u e h s = subst Once (some_inj s) (delivered-Once now c d e (h d refl))
  stored-Once now c fatal u e h s = cc
  stored-Once now c stuck u e h s = cc

  again-Once : (c : CacheData) → w.entry ≡ some c → Once (record w { phase = waiting })
  again-Once c e = record { placed = subst (Placed waiting) (sym e) tt; counts = v.counts }

  step-Once_at :
      (m : Move) (phase : Phase) (entry : Option CacheData) (u : World)
      → w.phase ≡ phase
      → w.entry ≡ entry
      → step o m phase entry w ≡ some u
      → Once u
  unfolding step resolve
  step-Once_at (ask now cb) phase none u ph e s = subst Once (some_inj s) (reacted_new now cb e)
  step-Once_at (ask now cb) phase (some c) u ph e s =
      subst Once (some_inj s) (reacted_cached now cb c c.callbacks e refl)
  step-Once_at (begin now) waiting (some c) u ph e s =
      subst Once (some_inj s) (started-Once now c (start o now c) ph e (start-erase o now c))
  step-Once_at (found fuel now addrs) looking_up (some c) u ph e s =
      stored-Once now c (store fuel now addrs c) u e (store_callbacks fuel now addrs c) s
  step-Once_at again calling (some c) u ph e s = subst Once (some_inj s) (again-Once c e)
  step-Once_at (begin now) absent entry u ph e s = cc
  step-Once_at (begin now) waiting none u ph e s = cc
  step-Once_at (begin now) looking_up entry u ph e s = cc
  step-Once_at (begin now) calling entry u ph e s = cc
  step-Once_at (found fuel now addrs) absent entry u ph e s = cc
  step-Once_at (found fuel now addrs) waiting entry u ph e s = cc
  step-Once_at (found fuel now addrs) looking_up none u ph e s = cc
  step-Once_at (found fuel now addrs) calling entry u ph e s = cc
  step-Once_at again absent entry u ph e s = cc
  step-Once_at again waiting entry u ph e s = cc
  step-Once_at again looking_up entry u ph e s = cc
  step-Once_at again calling none u ph e s = cc

-- Any number of moves, each of them possible.
abbrev pub runs : Options → List Move → World → Option World
runs o [] w = some w
runs o (m ∷ ms) w = elim (step o m w.phase w.entry w) [ none ↦ none | some u ↦ runs o ms u ]

abbrev pub unused : World
unused = record { entry = none; phase = absent; asked = []; called = [] }

unused-Once : Once unused
unused-Once = record { placed = tt; counts = λ x. refl }

runs-Once_from :
    (o : Options) (ms : List Move) (w u : World) → Once w → runs o ms w ≡ some u → Once u
runs-Once_from o [] w u v e = subst Once (some_inj e) v
runs-Once_from o (m ∷ ms) w u v e = elim (Option-cases (step o m w.phase w.entry w)) [
  | inl h ↦ absurd (cc)
  | inr (x, h) ↦
      runs-Once_from o ms x u (step-Once_at o w v m w.phase w.entry x refl refl h)
        (ap (λ y. elim y [ none ↦ none | some z ↦ runs o ms z ]) (sym h) ∙ e)
]

-- However calls of `Resolve` for one host_port and the parts of its task come after each other, each
-- callback has been called as often as it was given, or waits in the entry; while one waits, the task
-- is scheduled or looks the address up; and there is a task exactly while there is an entry.
pub runs-Once : (o : Options) (ms : List Move) (u : World) → runs o ms unused ≡ some u → Once u
runs-Once o ms u e = runs-Once_from o ms unused u unused-Once e
