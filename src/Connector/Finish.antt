-- ===== src/Connector/Finish.antt =====
-- How a connection attempt ends: `Finish`, `OnEvent` and `OnTimeout` of src/connector.cc.
use hcproxy.Common.{
  ℕ, ◌<◌, ◌≡◌, ◌≢◌, refl, ap, ◌∙◌, true, false, Bool, List, [], ◌∷◌, ◌++◌, none, some, arith,
  Outcome, ok, ◌==◌, if◌then◌else◌, ◌∉◌, ◌>>=◌, Bool-cases, ◌⊎◌, mem_middle, pass, ◌+◌, inl, inr,
  ◌||◌,
}
use hcproxy.NodeList.{Ptr, null, update_self}
use hcproxy.Epoll.{Ctl, IsDocumented}
use hcproxy.Bits.{has_bits, epoll_out, epoll_err}
use hcproxy.EventLoop.{Handler, EventLoop, set_handler, deref}
use hcproxy.EventLoop.References.{deref-ok}
use hcproxy.EventLoop.Invariant.{Inv, Inv-set_away}
use hcproxy.EventLoop.Remove.{remove-Inv, self_out, released_kept}
use hcproxy.Addr.{SockOpt, CanTell, sock_error-ok}
use hcproxy.Connector.{
  ConnectHandler, Effect, closed, called, effect, destroy, close_fd, finish, on_event, on_timeout,
  etime,
}

-- What the end of an attempt does, newest first.
abbrev outcome_effects : ℕ → ℕ → List Effect
outcome_effects err fd = if err == 0 then called (some fd) ∷ [] else called none ∷ closed fd ∷ []

with_effects : List Effect → Ptr → EventLoop ConnectHandler → EventLoop ConnectHandler
with_effects es p w =
    set_handler p
      (record (w.handlers p) {
        derived = record { effects = es ++ (w.handlers p).derived.effects };
      })
      w

effect-ok :
    (p : Ptr) (e : Effect) (w : EventLoop ConnectHandler)
    → p ≢ null
    → (w.handlers p).freed ≡ false
    → effect p e w ≡ ok (with_effects (e ∷ []) p w)
unfolding effect with_effects
effect-ok p e w h f = rw (deref-ok p w h f)

-- An attempt ends: the handler is out of the loop, and its result is reported once, after the
-- socket has been closed if it is an error.
pub record Ended (w : EventLoop ConnectHandler) (p : Ptr) (t err : ℕ) (order : List Ptr)
    (r : Outcome (EventLoop ConnectHandler)) : Type 0 where
  pub after : EventLoop ConnectHandler
  pub returns : r ≡ ok after
  pub inv : Inv after t order
  pub reported :
      (after.handlers p).derived.effects
      ≡ outcome_effects err (w.handlers p).fd ++ (w.handlers p).derived.effects
  pub alive : (after.handlers p).freed ≡ false
  pub held : (after.handlers p).ref_count + 1 ≡ (w.handlers p).ref_count
  pub others : (q : Ptr) → q ≢ p → after.handlers q ≡ w.handlers q

with_effects-Inv :
    (es : List Effect) (p : Ptr) (w : EventLoop ConnectHandler) {t : ℕ} {order : List Ptr}
    → Inv w t order
    → p ∉ order
    → Inv (with_effects es p w) t order
unfolding with_effects
with_effects-Inv es p w v out = Inv-set_away w p _ v out (v.away p out)

with_effects-at :
    (es : List Effect) (p : Ptr) (w : EventLoop ConnectHandler)
    → (with_effects es p w).handlers p ≡ record (w.handlers p) {
      derived = record { effects = es ++ (w.handlers p).derived.effects };
    }
unfolding with_effects
with_effects-at es p w = update_self w.handlers p _

module _ (close : ℕ → Bool) (closes : (fd : ℕ) → close fd ≡ true) where
  close_fd-ok :
      (p : Ptr) (w : EventLoop ConnectHandler)
      → p ≢ null
      → (w.handlers p).freed ≡ false
      → close_fd close p w ≡ ok (with_effects (closed (w.handlers p).fd ∷ []) p w)
  unfolding close_fd
  close_fd-ok p w h f = rw (deref-ok p w h f, pass (closes (w.handlers p).fd), effect-ok p _ w h f)

-- a handler that is out of the loop, and still referred to
module _ (u : EventLoop ConnectHandler) (p : Ptr) (h : p ≢ null)
    (f : (u.handlers p).freed ≡ false) where
  connected : EventLoop ConnectHandler
  connected = with_effects (called (some (u.handlers p).fd) ∷ []) p u

  failed : EventLoop ConnectHandler
  failed = with_effects (called none ∷ []) p (with_effects (closed (u.handlers p).fd ∷ []) p u)

  failed-ok :
      (close : ℕ → Bool)
      → ((fd : ℕ) → close fd ≡ true)
      → (close_fd close p u >>= effect p (called none)) ≡ ok failed
  unfolding failed
  failed-ok close closes = rw (close_fd-ok close closes p u h f) (
      effect-ok p (called none) _ h
        (ap (λ (k : Handler ConnectHandler). k.freed) (with_effects-at _ p u) ∙ f))

  connected-ok : (do k ← deref p u; effect p (called (some k.fd)) u) ≡ ok connected
  unfolding connected
  connected-ok = rw (deref-ok p u h f) (effect-ok p _ u h f)

  finished : ℕ → EventLoop ConnectHandler
  finished err = if err == 0 then connected else failed

  finished-at :
      (err : ℕ)
      → (finished err).handlers p ≡ record (u.handlers p) {
        derived = record {
          effects = outcome_effects err (u.handlers p).fd ++ (u.handlers p).derived.effects;
        };
      }
  unfolding finished connected failed
  finished-at err = ground (
    arith,
    with_effects-at (called (some (u.handlers p).fd) ∷ []) p u,
    with_effects-at (called none ∷ []) p (with_effects (closed (u.handlers p).fd ∷ []) p u),
    with_effects-at (closed (u.handlers p).fd ∷ []) p u,
  )

  finished-ok :
      (close : ℕ → Bool)
      → ((fd : ℕ) → close fd ≡ true)
      → (err : ℕ)
      → (if err == 0
          then (do k ← deref p u; effect p (called (some k.fd)) u)
          else (close_fd close p u >>= effect p (called none)))
        ≡ ok (finished err)
  unfolding finished
  finished-ok close closes err = elim (Bool-cases (err == 0)) [
    | inl e ↦ rw e connected-ok
    | inr e ↦ rw e (failed-ok close closes)
  ]

  finished-other : (err : ℕ) (q : Ptr) → q ≢ p → (finished err).handlers q ≡ u.handlers q
  unfolding finished connected failed with_effects
  finished-other err q ne = ground arith

  finished-Inv :
      (err : ℕ) {t : ℕ} {order : List Ptr} → Inv u t order → p ∉ order → Inv (finished err) t order
  unfolding finished connected failed
  finished-Inv err v out = elim (Bool-cases (err == 0)) [
    | inl e ↦ rw e (with_effects-Inv _ p u v out)
    | inr e ↦ rw e (with_effects-Inv _ p _ (with_effects-Inv _ p u v out) out)
  ]

module _ (epoll_ctl : Ctl) (documented : IsDocumented epoll_ctl) (close : ℕ → Bool)
    (closes : (fd : ℕ) → close fd ≡ true) (getsockopt : ℕ → SockOpt) where
  -- `Finish` of a registered handler, with a reference held by the caller, runs through all its
  -- checks; the attempt has ended with `err`.
  pub finish-Ended :
      (w : EventLoop ConnectHandler) (p : Ptr) (err : ℕ) {t : ℕ} (xs ys : List Ptr)
      → Inv w t (xs ++ p ∷ ys)
      → p ≢ null
      → 1 < (w.handlers p).ref_count
      → Ended w p t err (xs ++ ys) (finish epoll_ctl close getsockopt err p w)
  unfolding finish
  finish-Ended w p err xs ys v h r =
      let (u, done, inv, rc, fr, same, others) =
        remove-Inv w p epoll_ctl documented destroy (w.handlers p).derived refl xs ys v h in
      let f : (u.handlers p).freed ≡ false = fr ∙ ground arith in
      let kept = same ∙ released_kept w p (w.handlers p).derived r in
      let out = self_out w p xs ys w.expire v in
      let at = finished-at u p h f err in
      record {
        after = finished u p h f err;
        returns = rw done (finished-ok u p h f close closes err);
        inv = finished-Inv u p h f err inv out;
        reported =
            ap (λ (k : Handler ConnectHandler). k.derived.effects) at
            ∙ ap (λ (k : Handler ConnectHandler). outcome_effects err k.fd ++ k.derived.effects)
                kept;
        alive = ap (λ (k : Handler ConnectHandler). k.freed) at ∙ f;
        held = ap (λ (k : Handler ConnectHandler). k.ref_count + 1) at ∙ rc;
        others = λ q ne. finished-other u p h f err q ne ∙ others q ne;
      }

  -- A timeout closes the socket, reports -1 and retires the handler, as the event loop wants of it.
  pub on_timeout-Ended :
      (w : EventLoop ConnectHandler) (p : Ptr) {t : ℕ} (xs ys : List Ptr)
      → Inv w t (xs ++ p ∷ ys)
      → p ≢ null
      → 1 < (w.handlers p).ref_count
      → Ended w p t etime (xs ++ ys) (on_timeout epoll_ctl close getsockopt p w)
  unfolding on_timeout
  on_timeout-Ended w p xs ys v h r = finish-Ended w p etime xs ys v h r

  -- An event with an error or with room to write ends the attempt by what SockError says, where
  -- getsockopt succeeds; any other event changes nothing.
  pub on_event-Ended :
      CanTell getsockopt
      → (w : EventLoop ConnectHandler) (p : Ptr) (events : ℕ) {t : ℕ} (xs ys : List Ptr)
      → Inv w t (xs ++ p ∷ ys)
      → p ≢ null
      → 1 < (w.handlers p).ref_count
      → (((has_bits events epoll_err || has_bits events epoll_out) ≡ true)
          × Ended w p t
              (getsockopt (w.handlers p).fd).err
              (xs ++ ys)
              (on_event epoll_ctl close getsockopt p events w))
        ⊎ (((has_bits events epoll_err || has_bits events epoll_out) ≡ false)
            × (on_event epoll_ctl close getsockopt p events w ≡ ok w))
  unfolding on_event
  on_event-Ended tells w p events xs ys v h r =
      elim (Bool-cases (has_bits events epoll_err || has_bits events epoll_out)) [
        | inl e ↦ inl (
          e,
          rw
              (
                e,
                deref-ok p w h (v.live p (mem_middle p xs ys)).alive,
                sock_error-ok getsockopt tells (w.handlers p).fd,
              )
              (finish-Ended w p (getsockopt (w.handlers p).fd).err xs ys v h r),
        )
        | inr e ↦ inr (e, rw e)
      ]
