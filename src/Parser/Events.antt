-- ===== src/Parser/Events.antt =====
-- `OnEvent`, `OnTimeout` and `Finish` of `ParseEventHandler` in src/parser.cc, in an event loop.
use hcproxy.Common.{
  ℕ, ◌+◌, ◌<◌, ◌≡◌, ◌≢◌, refl, ap, ◌∙◌, false, none, some, List, [], ◌∷◌, ◌++◌, arith, Outcome, ok,
  ◌>>=◌, if◌then◌else◌,
}
use hcproxy.NodeList.{Ptr, null, update_self}
use hcproxy.Bits.{has_bits, epoll_in, epoll_err}
use hcproxy.Epoll.{Ctl, IsDocumented}
use hcproxy.Addr.{SockOpt, sock_error}
use hcproxy.EventLoop.{Handler, EventLoop, set_handler, deref, remove}
use hcproxy.EventLoop.References.{deref-ok}
use hcproxy.EventLoop.Invariant.{Inv, Inv-set_away}
use hcproxy.EventLoop.Remove.{released_kept, remove-Inv, self_out}
use hcproxy.Parser.{Bytes, ReadResult, Progress, read}

-- `class ParseEventHandler`: what has been read, and what the callback was called with, newest first
pub record ParseHandler : Type 0 where
  pub content : Bytes
  pub called : List Bytes

abbrev pub Loop : Type 0
Loop = EventLoop ParseHandler

abbrev pub set_parser : Ptr → ParseHandler → Loop → Loop
set_parser p x w = set_handler p (record (w.handlers p) { derived = x }) w

abbrev pub heard : Bytes → ParseHandler → ParseHandler
heard hp x = record x { called = hp ∷ x.called }

module _ (epoll_ctl : Ctl) where
  -- `Finish`
  unfoldable pub finish_parse : Bytes → Ptr → Loop → Outcome Loop
  finish_parse hp p w = do
    w ← remove epoll_ctl ok p w
    h ← deref p w
    ok (set_parser p (heard hp h.derived) w)

  -- `OnTimeout`
  unfoldable pub time_out_parse : Ptr → Loop → Outcome Loop
  unfolding finish_parse
  time_out_parse p w = finish_parse [] p w

  module _ {W : Type 0} (getsockopt : ℕ → SockOpt) (sys_read : ℕ → W → ReadResult × W)
      (capacity : ℕ) where
    -- what `OnEvent` does with the result of `Read`
    unfoldable pub settle : Ptr → Loop → Progress W → Outcome (Loop × W)
    unfolding finish_parse
    settle p w r =
        let w = set_parser p (record (w.handlers p).derived { content = r.content }) w in
        elim r.result [
          | none ↦ ok (w, r.socket)
          | some hp ↦ finish_parse hp p w >>= λ w. ok (w, r.socket)
        ]

    -- `OnEvent`, which calls `SockError` for what it logs
    unfoldable pub parse_event : Ptr → (events : ℕ) → Loop → W → Outcome (Loop × W)
    unfolding settle
    parse_event p events w s = do
      h ← deref p w
      if has_bits events epoll_err
          then (do e ← sock_error (getsockopt h.fd); w ← finish_parse [] p w; ok (w, s))
          else if has_bits events epoll_in
          then (read sys_read capacity h.derived.content s >>= settle p w)
          else ok (w, s)

-- The callback was called, once, and the handler is out of the loop, alive by its caller's reference.
pub record Answered (w : Loop) (t : ℕ) (order : List Ptr) (p : Ptr) (hp : Bytes) (r : Outcome Loop)
    : Type 0 where
  pub after : Loop
  pub returns : r ≡ ok after
  pub inv : Inv after t order
  pub heard_once : (after.handlers p).derived.called ≡ hp ∷ (w.handlers p).derived.called
  pub content_kept : (after.handlers p).derived.content ≡ (w.handlers p).derived.content
  pub alive : (after.handlers p).freed ≡ false
  pub held : (after.handlers p).ref_count + 1 ≡ (w.handlers p).ref_count

module _ (epoll_ctl : Ctl) (documented : IsDocumented epoll_ctl) (w : Loop) (p : Ptr) {t : ℕ}
    (xs ys : List Ptr) (v : Inv w t (xs ++ p ∷ ys)) (h : p ≢ null)
    (refs : 1 < (w.handlers p).ref_count) where
  finish_parse-returns :
      (hp : Bytes) (u : Loop)
      → remove epoll_ctl ok p w ≡ ok u
      → (u.handlers p).freed ≡ false
      → finish_parse epoll_ctl hp p w ≡ ok (set_parser p (heard hp (u.handlers p).derived) u)
  unfolding finish_parse
  finish_parse-returns hp u done f = rw (done, deref-ok p u h f) refl

  -- `Finish` of a registered handler, of which the caller holds a reference, takes it out of the loop
  -- and calls the callback once.
  pub finish_parse-Answered :
      (hp : Bytes) → Answered w t (xs ++ ys) p hp (finish_parse epoll_ctl hp p w)
  finish_parse-Answered hp =
      let (u, done, inv, rc, fr, same, others) =
        remove-Inv w p epoll_ctl documented ok (w.handlers p).derived refl xs ys v h in
      let f : (u.handlers p).freed ≡ false = fr ∙ ground arith in
      let kept = same ∙ released_kept w p (w.handlers p).derived refs in
      let out = self_out w p xs ys w.expire v in
      let at =
        update_self u.handlers p
          (record (u.handlers p) { derived = heard hp (u.handlers p).derived }) in
      record {
        after = set_parser p (heard hp (u.handlers p).derived) u;
        returns = finish_parse-returns hp u done f;
        inv = Inv-set_away u p _ inv out (inv.away p out);
        heard_once =
            ap (λ (k : Handler ParseHandler). k.derived.called) at
            ∙ ap (λ (k : Handler ParseHandler). hp ∷ k.derived.called) kept;
        content_kept =
            ap (λ (k : Handler ParseHandler). k.derived.content) at
            ∙ ap (λ (k : Handler ParseHandler). k.derived.content) kept;
        alive = ap (λ (k : Handler ParseHandler). k.freed) at ∙ f;
        held = ap (λ (k : Handler ParseHandler). k.ref_count + 1) at ∙ rc;
      }
