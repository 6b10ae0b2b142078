-- ===== src/Forwarder/Start/Started.antt =====
-- What `New` of src/forwarder.cc is given, and what it comes to.
use hcproxy.Common.{
  ℕ, ◌≤◌, ◌≡◌, ◌≢◌, refl, ◌∙◌, false, none, List, arith, Outcome, fatal, ◌<◌, ◌∉◌, ◌⊎◌,
}
use hcproxy.NodeList.{Ptr, null}
use hcproxy.Epoll.{watched}
use hcproxy.EventLoop.{EventLoop}
use hcproxy.EventLoop.Invariant.{Inv}
use hcproxy.Forwarder.Transfer.{IsSound}
use hcproxy.Forwarder.Link.{Link}
use hcproxy.Forwarder.Start.{BufferSizes, PipeCalls}
use hcproxy.Forwarder.Start.Buffers.{IsDocumented, IsSize, opened}
use hcproxy.Forwarder.Start.Discard.{Discarded}
use hcproxy.Forwarder.Start.Connected.{Connected, IsNew}

-- The pipe was opened and its size set, or opened and its size not set.
abbrev pub IsOpened : PipeCalls → Type 0
IsOpened c = (c.errno ≡ none) × (0 < c.set_size)

abbrev pub IsUnsized : PipeCalls → Type 0
IsUnsized c = (c.errno ≡ none) × (c.set_size ≡ 0)

-- What `New` comes to: with both pipes a tunnel, without one of them nothing; and if one was opened
-- whose size cannot be set, a failed check.
pub data Started (w : EventLoop Link) (t now : ℕ) (order : List Ptr) (p q : Ptr)
    (first second : PipeCalls) (r : Outcome (EventLoop Link)) : Type 0 where
  runs :
      IsOpened first
      → IsOpened second
      → Connected w now order p q r
      → Started w t now order p q first second r
  refused :
      (first.errno ≢ none) ⊎ (IsOpened first × (second.errno ≢ none))
      → Discarded w t order p q r
      → Started w t now order p q first second r
  crashed :
      IsUnsized first ⊎ (IsOpened first × IsUnsized second)
      → r ≡ fatal
      → Started w t now order p q first second r

-- The same, from an earlier state, where the steps between changed the two links only.
module _ (w u : EventLoop Link) (t now : ℕ) (order : List Ptr) (p q : Ptr)
    (spared : (r : Ptr) → r ≢ p → r ≢ q → u.handlers r ≡ w.handlers r)
    (same : u.epoll ≡ w.epoll) where
  pub Connected-before :
      {r s : Outcome (EventLoop Link)}
      → r ≡ s
      → Connected u now order p q s
      → Connected w now order p q r
  Connected-before e c = record {
    after = c.after;
    returns = e ∙ c.returns;
    tunnel = c.tunnel;
    there = c.there;
    back = c.back;
    open_ways = c.open_ways;
    sent = c.sent;
    others = λ r np nq. c.others r np nq ∙ spared r np nq;
  }

  pub Discarded-before :
      {r s : Outcome (EventLoop Link)}
      → r ≡ s
      → Discarded u t order p q s
      → Discarded w t order p q r
  Discarded-before e d = record {
    after = d.after;
    returns = e ∙ d.returns;
    inv = d.inv;
    gone = d.gone;
    others = λ r np nq. d.others r np nq ∙ spared r np nq;
    calls = d.calls ∙ same;
  }

pub opened-IsSound : (n : ℕ) → IsSound (opened n)
opened-IsSound n = record { counts = refl; fits = omega arith }

pub opened-IsNew : (n : ℕ) → 4096 ≤ n → IsNew (opened n)
opened-IsNew n h = record { empty = (refl, refl); ends = (refl, refl); room = omega arith }

-- What `New` is given: two addresses that are not in the loop, two descriptors that the kernel does not
-- watch, and pipes as they are documented.
pub record CanStart (w : EventLoop Link) (t : ℕ) (order : List Ptr) (p q : Ptr) (fd_p fd_q : ℕ)
    (opt : BufferSizes) (first second : PipeCalls) (clock : ℕ → ℕ) : Type 0 where
  pub inv : Inv w t order
  pub set : (p ≢ null) × (q ≢ null)
  pub apart : p ≢ q
  pub unused : (p ∉ order) × (q ∉ order)
  pub two_fds : fd_p ≢ fd_q
  pub unwatched : (watched w.epoll.calls fd_p ≡ false) × (watched w.epoll.calls fd_q ≡ false)
  pub later : (t ≤ clock 0) × (clock 0 ≤ clock 1)
  pub sizes : IsSize opt.server_to_client × IsSize opt.client_to_server
  pub pipes : IsDocumented opt.server_to_client first × IsDocumented opt.client_to_server second
