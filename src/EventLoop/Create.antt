-- ===== src/EventLoop/Create.antt =====
-- The constructors of `EventLoop` in src/event_loop.cc and of `EPoll` in src/epoll.cc. What the system
-- calls of the first return is a parameter.
use hcproxy.Common.{
  ℕ, ◌<◌, ◌≡◌, ◌⊎◌, inl, inr, refl, ◌∷◌, Bool, true, false, [], arith, Outcome, ok, ◌>>=◌, ◌>>◌,
  check, ltb, lt→ltb, if◌then◌else◌, ◌==◌, pass, Bool-cases, if_true, if_false, sym, ◌∙◌,
}
use Prim.Native.Nat.{bit_or}
use hcproxy.NodeList.{Ptr, null, NodeList}
use hcproxy.Bits.{epoll_in}
use hcproxy.Epoll.{Ctl, EPoll, CtlOp, watched, IsDocumented, epoll_add}
use hcproxy.EventLoop.{Handler, EventLoop}
use hcproxy.EventLoop.Invariant.{Inv}

-- `epoll_create1`, as whether it returns a descriptor, `pipe2` and `pipe`, as whether they return 0, the two ends they give, and `fcntl` for F_GETFL and for
-- F_SETFL, as whether it returns 0
pub record PipeCalls : Type 0 where
  pub epoll_create : Bool
  pub pipe2 : Bool
  pub pipe : Bool
  pub read_end : ℕ
  pub write_end : ℕ
  pub get_flags : ℕ → ℕ
  pub set_flags : ℕ → ℕ → Bool

abbrev o_direct : ℕ
o_direct = 16384

-- `AddFlags`
pub add_flags : PipeCalls → (fd flags : ℕ) → Outcome (Unit {0})
add_flags c fd flags = check (c.set_flags fd (bit_or flags (c.get_flags fd)))

-- the `if (pipe2(…) != 0)`
pub open_pipe : PipeCalls → Outcome (Unit {0})
unfolding add_flags
open_pipe c =
    if c.pipe2
    then ok tt
    else (do check c.pipe; add_flags c c.read_end o_direct; add_flags c c.write_end o_direct)

-- `EPoll()`, by whether `epoll_create1` returns a descriptor
abbrev pub empty_epoll : EPoll
empty_epoll = record { calls = []; slots = 0; room = 0; total_events = 0; ready_events = 0 }

unfoldable pub new_epoll : (created : Bool) → Outcome EPoll
new_epoll created = do check created; ok empty_epoll

-- `List()`
abbrev pub empty : NodeList
empty = record { nodes = λ p. record { prev = null; next = null }; head = null; tail = null }

-- `EventLoop::EventLoop`, seen from the thread that it starts
pub new_loop :
    {X : Type 0} → Ctl → PipeCalls → (timeout : ℕ) → (Ptr → Handler X) → Outcome (EventLoop X)
unfolding open_pipe new_epoll
new_loop epoll_ctl c timeout handlers = do
  epoll ← new_epoll c.epoll_create
  check (ltb 0 timeout)
  open_pipe c
  epoll ← epoll_add epoll_ctl c.read_end epoll_in null epoll
  ok (record {
    handlers = handlers;
    epoll = epoll;
    expire = empty;
    timeout = timeout;
    on_thread = true;
  })

-- A pipe can be had in one of the two ways.
abbrev pub IsOpened : PipeCalls → Type 0
IsOpened c = (c.pipe2 ≡ true) ⊎ ((c.pipe ≡ true) × ((fd flags : ℕ) → c.set_flags fd flags ≡ true))

open_pipe-ok : (c : PipeCalls) → IsOpened c → open_pipe c ≡ ok tt
unfolding open_pipe add_flags
open_pipe-ok c (inl e) = sym (if_true _ _ e)
open_pipe-ok c (inr (e, f)) = elim (Bool-cases c.pipe2) [
  | inl g ↦ sym (if_true _ _ g)
  | inr g ↦ sym (if_false _ _ g) ∙ rw (e, f c.read_end _, f c.write_end _) refl
]

module _ {X : Type 0} (epoll_ctl : Ctl) (documented : IsDocumented epoll_ctl) (c : PipeCalls)
    (timeout : ℕ) (handlers : Ptr → Handler X) where
  created : EventLoop X
  created = record {
    handlers = handlers;
    epoll = record empty_epoll {
      calls = record { op = CtlOp.add; fd = c.read_end; events = epoll_in; handler = null } ∷ [];
      total_events = 1;
    };
    expire = empty;
    timeout = timeout;
    on_thread = true;
  }

  created-Inv : (now : ℕ) → ((p : Ptr) → (handlers p).registered ≡ false) → Inv created now []
  unfolding created
  created-Inv now away = record {
    on_thread = refl;
    ordered = record {
      head_first = refl;
      tail_last = refl;
      linked = omega arith;
      distinct = tt;
      loose = λ p out. (refl, refl);
    };
    rising = tt;
    recent = λ p i. cc;
    counted = refl;
    live = λ p i. cc;
    away = λ p o. away p;
    own_fd = λ p q i j e. cc;
  }

  -- A new event loop, with a timeout that is not zero, with an epoll and a pipe that can be had,
  -- and while no handler is registered in it, satisfies the invariant with no handler at any time,
  -- and watches its pipe and nothing else.
  pub new_loop-Inv :
      0 < timeout
      → c.epoll_create ≡ true
      → IsOpened c
      → ((p : Ptr) → (handlers p).registered ≡ false)
      → (w : EventLoop X) × (new_loop epoll_ctl c timeout handlers ≡ ok w)
        × ((now : ℕ) → Inv w now [])
        × ((fd : ℕ) → watched w.epoll.calls fd ≡ (c.read_end == fd))
  unfolding new_loop new_epoll epoll_add created
  new_loop-Inv pos epolls opened away = (
    created,
    rw
        (
          pass epolls,
          pass (lt→ltb 0 timeout pos),
          open_pipe-ok c opened,
          pass (
              documented.succeeds []
                (record { op = CtlOp.add; fd = c.read_end; events = epoll_in; handler = null })
                refl),
        )
        refl,
    λ now. created-Inv now away,
    λ fd. ground arith,
  )
