-- ===== src/Parser/Handling.antt =====
-- What an event comes to for the `ParseEventHandler` of src/parser.cc.
use hcproxy.Common.{
  ℕ, ◌<◌, ◌^◌, ◌≡◌, ◌≢◌, refl, ap, sym, ◌∙◌, subst, false, none, some, List, [], ◌∷◌, ◌++◌, arith,
  Outcome, ok, ◌>>=◌, length, Bool-cases, Option-cases, inl, inr, mem_middle,
}
use hcproxy.NodeList.{Ptr, null, update_self}
use hcproxy.Bits.{has_bits, epoll_in, epoll_err}
use hcproxy.Epoll.{Ctl, IsDocumented}
use hcproxy.Addr.{SockOpt, CanTell, sock_error-ok}
use hcproxy.EventLoop.{Handler}
use hcproxy.EventLoop.References.{deref-ok}
use hcproxy.EventLoop.Invariant.{Inv, Inv-set_live}
use hcproxy.Parser.{Bytes, ReadResult, Progress, read, connect_prefix}
use hcproxy.Parser.Prefix.{Agrees}
use hcproxy.Parser.Request.{IsRequest}
use hcproxy.Parser.Reading.{IsBounded, IsSound, read-Sound}
use hcproxy.Parser.Events.{
  ParseHandler, Loop, set_parser, finish_parse, settle, parse_event, finish_parse-Answered,
}

-- Content that `Read` may go on with: the start of a request, with room left.
abbrev pub Readable : ℕ → Bytes → Type 0
Readable capacity c = Agrees connect_prefix c × (length c < capacity)

-- What an event comes to.
pub data Handled {W : Type 0} (w : Loop) (t : ℕ) (xs ys : List Ptr) (p : Ptr) (capacity : ℕ)
    (r : Outcome (Loop × W)) : Type 0 where
  -- the handler stays in the loop, with content that can be added to
  waits :
      (u : Loop) (s : W)
      → r ≡ ok (u, s)
      → Inv u t (xs ++ p ∷ ys)
      → (u.handlers p).derived.called ≡ (w.handlers p).derived.called
      → Readable capacity (u.handlers p).derived.content
      → Handled w t xs ys p capacity r
  -- the callback is called, with nothing or with the host_port of the request that was read
  answers :
      (u : Loop) (s : W) (hp : Bytes)
      → r ≡ ok (u, s)
      → Inv u t (xs ++ ys)
      → (u.handlers p).derived.called ≡ hp ∷ (w.handlers p).derived.called
      → (hp ≢ [] → IsRequest (u.handlers p).derived.content hp)
      → (u.handlers p).freed ≡ false
      → Handled w t xs ys p capacity r

module _ (epoll_ctl : Ctl) (documented : IsDocumented epoll_ctl) {W : Type 0}
    (getsockopt : ℕ → SockOpt) (sys_read : ℕ → W → ReadResult × W) (capacity : ℕ) (w : Loop)
    (p : Ptr) {t : ℕ} (xs ys : List Ptr) (v : Inv w t (xs ++ p ∷ ys)) (h : p ≢ null)
    (refs : 1 < (w.handlers p).ref_count) where
  -- the loop with the content that `Read` has left
  filled : Bytes → Loop
  filled c = set_parser p (record (w.handlers p).derived { content = c }) w

  filled-at :
      (c : Bytes)
      → (filled c).handlers p
        ≡ record (w.handlers p) { derived = record (w.handlers p).derived { content = c } }
  unfolding filled
  filled-at c = update_self w.handlers p _

  filled-Inv : (c : Bytes) → Inv (filled c) t (xs ++ p ∷ ys)
  unfolding filled
  filled-Inv c = Inv-set_live w p _ v refl refl refl refl (omega arith)

  settle-waits :
      (r : Progress W)
      → r.result ≡ none
      → Readable capacity r.content
      → Handled w t xs ys p capacity (settle epoll_ctl getsockopt sys_read capacity p w r)
  unfolding settle filled
  settle-waits r e good =
      waits (filled r.content) r.socket (rw e refl) (filled-Inv r.content)
        (ap (λ (k : Handler ParseHandler). k.derived.called) (filled-at r.content))
        (subst (Readable capacity)
          (ap (λ (k : Handler ParseHandler). k.derived.content) (sym (filled-at r.content))) good)

  settle-answers :
      (r : Progress W) (hp : Bytes)
      → r.result ≡ some hp
      → (hp ≢ [] → IsRequest r.content hp)
      → Handled w t xs ys p capacity (settle epoll_ctl getsockopt sys_read capacity p w r)
  unfolding settle filled
  settle-answers r hp e good =
      let at = filled-at r.content in
      let a =
        finish_parse-Answered epoll_ctl documented (filled r.content) p xs ys (filled-Inv r.content)
          h (subst (λ (k : Handler ParseHandler). 1 < k.ref_count) (sym at) refs) hp in
      answers a.after r.socket hp (rw (e, a.returns) refl) a.inv
        (a.heard_once ∙ ap (λ (k : Handler ParseHandler). hp ∷ k.derived.called) at)
        (λ ne.
          subst (λ c. IsRequest c hp)
            (ap (λ (k : Handler ParseHandler). k.derived.content) (sym at) ∙ sym a.content_kept)
            (good ne))
        a.alive

  module _ (bounded : IsBounded sys_read) (small : capacity < 2 ^ 63)
      (good : Readable capacity (w.handlers p).derived.content) where
    read-Handled :
        (s : W)
        → Handled w t xs ys p capacity (
            read sys_read capacity (w.handlers p).derived.content s
            >>= settle epoll_ctl getsockopt sys_read capacity p w)
    read-Handled s =
        let (r, done, sound) =
          read-Sound sys_read capacity bounded small (w.handlers p).derived.content s good.0
            good.1 in
        subst
          (λ m.
            Handled w t xs ys p capacity (m >>= settle epoll_ctl getsockopt sys_read capacity p w))
          (sym done) (settled r sound)
      where
        settled :
            (r : Progress W)
            → IsSound capacity r
            → Handled w t xs ys p capacity (settle epoll_ctl getsockopt sys_read capacity p w r)
        settled r sound = elim (Option-cases r.result) [
          | inl e ↦ settle-waits r e (sound.waits e)
          | inr (hp, e) ↦ settle-answers r hp e (sound.answers hp e)
        ]

    error-Handled :
        (s : W) → Handled w t xs ys p capacity (finish_parse epoll_ctl [] p w >>= λ w. ok (w, s))
    error-Handled s =
        let a = finish_parse-Answered epoll_ctl documented w p xs ys v h refs [] in
        answers a.after s [] (rw a.returns refl) a.inv a.heard_once (λ ne. absurd (ne refl)) a.alive

    -- Any event of a registered handler of the parser, of which the loop holds a reference and
    -- whose content can be added to, passes all checks, where getsockopt succeeds; either the
    -- handler stays with content that can be added to, or it leaves the loop and calls its callback
    -- once, with nothing or with the host_port of the valid request it has read.
    pub parse_event-Handled :
        CanTell getsockopt
        → (events : ℕ) (s : W)
        → Handled w t xs ys p capacity
            (parse_event epoll_ctl getsockopt sys_read capacity p events w s)
    unfolding parse_event
    parse_event-Handled tells events s =
        let live = (v.live p (mem_middle p xs ys)).alive in
        elim (Bool-cases (has_bits events epoll_err)) [
          | inl e ↦
              rw (deref-ok p w h live, e, sock_error-ok getsockopt tells (w.handlers p).fd)
                (error-Handled s)
          | inr n ↦ elim (Bool-cases (has_bits events epoll_in)) [
            | inl i ↦ rw (deref-ok p w h live, n, i) (read-Handled s)
            | inr o ↦ rw (deref-ok p w h live, n, o) (waits w s refl v refl good)
          ]
        ]
