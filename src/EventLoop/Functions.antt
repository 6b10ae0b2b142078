-- ===== src/EventLoop/Functions.antt =====
-- The functions that other threads have an event loop run (src/event_loop.cc): `Schedule`,
-- `ScheduleOrRun` and `PopFunc`. Their addresses go through a pipe, eight bytes each. The pipe is its
-- bytes; `F` is the type of `std::function<void()>` objects that are not empty, and what calling one
-- does is a parameter. The heap holds the objects that were made with `new` and are not deleted.
pub mod Words
pub mod Queue
pub mod Refines
pub mod Order
use hcproxy.Common.{
  ℕ, zero, suc, ◌+◌, ◌*◌, ◌/◌, ◌%◌, Bool, true, false, not, Option, none, some, List, [], ◌∷◌,
  Outcome, ok, ◌>>=◌, ◌>>◌, check, ◌==◌, length,
}
use hcproxy.NodeList.{Ptr, update}
use hcproxy.Parser.{Bytes}

-- `write` to the pipe and `read` from it: given what the pipe holds, the bytes written or read, as a
-- number or themselves, and what the pipe holds afterwards
pub record PipeKernel : Type 0 where
  pub write : Bytes → Bytes → ℕ × Bytes
  pub read : ℕ → Bytes → Bytes × Bytes

pub record Functions (F : Type 0) : Type 0 where
  pub heap : Ptr → Option F
  pub pipe : Bytes

-- a pointer in memory: the bytes of a number, the lowest first, and back
unfoldable pub to_bytes : (count : ℕ) → ℕ → Bytes
to_bytes zero x = []
to_bytes (suc n) x = (x % 256) ∷ to_bytes n (x / 256)

pub of_bytes : Bytes → ℕ
of_bytes [] = 0
of_bytes (b ∷ bs) = b + 256 * of_bytes bs

-- `sizeof` a pointer
abbrev pub pointer_size : ℕ
pointer_size = 8

module _ {F : Type 0} (k : PipeKernel) where
  -- `Schedule`, from a thread that is or is not the loop's; `address` is what `new` returns, and an
  -- empty function is `none`
  unfoldable pub schedule :
      (on_thread : Bool) → (address : Ptr) → Option F → Functions F → Outcome (Functions F)
  schedule on_thread address none s = Outcome.fatal
  schedule on_thread address (some f) s = do
    check (not on_thread)
    let (n, pipe) = k.write (to_bytes pointer_size address) s.pipe
    check (n == pointer_size)
    ok (record { heap = update s.heap address (some f); pipe = pipe })

  -- `run` calls a function; meanwhile other threads may schedule more
  module _ {L : Type 0} (run : F → Functions F × L → Outcome (Functions F × L)) where
    -- `*f` where `f` was not deleted
    unfoldable pub call_at : Option F → Functions F × L → Outcome (Functions F × L)
    call_at none s = Outcome.fatal
    call_at (some f) s = run f s

    abbrev pub forget : Ptr → Functions F × L → Functions F × L
    forget p (s, w) = (record s { heap = update s.heap p none }, w)

    -- `PopFunc`
    unfoldable pub pop_func : Functions F × L → Outcome (Functions F × L)
    pop_func (s, w) =
        let (bytes, pipe) = k.read pointer_size s.pipe in
        do
          check (length bytes == pointer_size)
          r ← call_at (s.heap (of_bytes bytes)) (record s { pipe = pipe }, w)
          ok (forget (of_bytes bytes) r)

    -- `ScheduleOrRun`
    unfoldable pub schedule_or_run :
        (on_thread : Bool)
        → (address : Ptr) → Option F
        → Functions F × L
        → Outcome (Functions F × L)
    schedule_or_run on_thread address none s = Outcome.fatal
    schedule_or_run true address (some f) s = run f s
    schedule_or_run false address (some f) (s, w) = do
      s ← schedule false address (some f) s
      ok (s, w)
