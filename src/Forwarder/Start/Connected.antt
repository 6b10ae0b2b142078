-- ===== src/Forwarder/Start/Connected.antt =====
-- The second part of `New` in src/forwarder.cc, where both links have their pipes.
use hcproxy.Common.{
  ℕ, ◌+◌, ◌≤◌, ◌≡◌, ◌≢◌, refl, ap, sym, ◌∙◌, true, false, List, [], ◌∷◌, ◌++◌, arith, Outcome, ok,
  last_mem, snoc_mem, length,
}
use hcproxy.NodeList.{Ptr, null, update_self}
use hcproxy.Epoll.{Ctl, IsDocumented, watched}
use hcproxy.EventLoop.{Handler, EventLoop, set_handler, add}
use hcproxy.EventLoop.References.{deref-ok}
use hcproxy.EventLoop.Invariant.{Inv, Inv-set_live}
use hcproxy.EventLoop.Add.{Added, add-Added}
use hcproxy.Forwarder.{Buffer}
use hcproxy.Forwarder.Transfer.{IsSound}
use hcproxy.Forwarder.Link.{Link, is_open}
use hcproxy.Forwarder.Link.Sides.{Tunnel}
use hcproxy.Forwarder.Link.Flow.{Pipe}
use hcproxy.Parser.{Bytes}
use hcproxy.Forwarder.Start.{response, made, all_events, connect_links}
use hcproxy.Forwarder.Start.Buffers.{with_bytes, write-ok, with_bytes-IsSound}
use hcproxy.Forwarder.Start.Joined.{Joined, referred}

-- a link that is in the loop, and referred to by it and by the other link
abbrev listed : ℕ → Buffer → Ptr → ℕ → Handler Link
listed fd out other deadline = record (made fd out other) {
  deadline = deadline;
  registered = true;
  ref_count = 2;
}

-- What `connect_links` comes to: a tunnel that nobody else refers to, with the response on its way to
-- the client.
pub record Connected (w : EventLoop Link) (now : ℕ) (order : List Ptr) (p q : Ptr)
    (r : Outcome (EventLoop Link)) : Type 0 where
  pub after : EventLoop Link
  pub returns : r ≡ ok after
  pub tunnel : Tunnel after now ((order ++ p ∷ []) ++ q ∷ []) p q 0 0
  pub there : Pipe (after.handlers p).derived (after.handlers q).derived
  pub back : Pipe (after.handlers q).derived (after.handlers p).derived
  pub open_ways :
      ((after.handlers p).derived.readable ≡ true)
      × ((after.handlers p).derived.writable ≡ true)
      × ((after.handlers q).derived.readable ≡ true)
      × ((after.handlers q).derived.writable ≡ true)
  pub sent :
      ((after.handlers p).derived.out.queued ≡ response)
      × ((after.handlers q).derived.out.queued ≡ [])
  pub others : (r : Ptr) → r ≢ p → r ≢ q → after.handlers r ≡ w.handlers r

-- A pipe that was just opened.
pub record IsNew (b : Buffer) : Type 0 where
  pub empty : (b.size ≡ 0) × (b.queued ≡ [])
  pub ends : (b.read_open ≡ true) × (b.write_open ≡ true)
  pub room : length response ≤ b.capacity

module _ (epoll_ctl : Ctl) (documented : IsDocumented epoll_ctl) (clock : ℕ → ℕ)
    (w : EventLoop Link) (t : ℕ) (order : List Ptr) (p q : Ptr) (fd_p fd_q : ℕ) (b d : Buffer)
    (j : Joined w t order p q fd_p fd_q b d) (set_p : p ≢ null) (set_q : q ≢ null) (apart : p ≢ q)
    (two_fds : fd_p ≢ fd_q) (free_p : watched w.epoll.calls fd_p ≡ false)
    (free_q : watched w.epoll.calls fd_q ≡ false)
    (later : (t ≤ clock 0) × (clock 0 ≤ clock 1)) where
  client-Added :
      Added j.held p (clock 0) all_events order (add epoll_ctl (clock 0) p all_events j.held)
  client-Added =
      add-Added j.held p (clock 0) all_events epoll_ctl documented later.0 j.inv (record {
        is_set = set_p;
        alive = ap (λ (h : Handler Link). h.freed) j.at_p;
        unregistered = ap (λ (h : Handler Link). h.registered) j.at_p;
        unwatched = rw (j.calls, j.at_p) free_p;
      })

  one : EventLoop Link
  one = client-Added.after

  one-p : one.handlers p ≡ record (listed fd_p b q (clock 0 + j.held.timeout)) { ref_count = 2 }
  unfolding one
  one-p = client-Added.at ∙ rw j.at_p refl

  one-q : one.handlers q ≡ referred fd_q d p
  unfolding one
  one-q = client-Added.others q (λ e. apart (sym e)) ∙ j.at_q

  one-unwatched : watched one.epoll.calls fd_q ≡ false
  unfolding one
  one-unwatched = rw (client-Added.calls, j.at_p, j.calls) (ground (arith, two_fds, free_q))

  server-Added :
      Added one q (clock 1) all_events (order ++ p ∷ []) (add epoll_ctl (clock 1) q all_events one)
  unfolding one
  server-Added =
      add-Added one q (clock 1) all_events epoll_ctl documented later.1 client-Added.inv (record {
        is_set = set_q;
        alive = ap (λ (h : Handler Link). h.freed) one-q;
        unregistered = ap (λ (h : Handler Link). h.registered) one-q;
        unwatched = rw one-q one-unwatched;
      })

  two : EventLoop Link
  two = server-Added.after

  two-p : two.handlers p ≡ listed fd_p b q (clock 0 + j.held.timeout)
  unfolding two
  two-p = server-Added.others p apart ∙ one-p

  two-q : two.handlers q ≡ listed fd_q d p (clock 1 + one.timeout)
  unfolding two
  two-q = server-Added.at ∙ rw one-q refl

  -- the client's link with the response in its pipe
  answered : Handler Link
  answered = listed fd_p (with_bytes response b) q (clock 0 + j.held.timeout)

  done : EventLoop Link
  unfolding two answered
  done = set_handler p answered two

  done-p : done.handlers p ≡ answered
  unfolding done two answered
  done-p = update_self two.handlers p _

  done-q : done.handlers q ≡ listed fd_q d p (clock 1 + one.timeout)
  unfolding done two answered
  done-q = ground (arith, apart) ∙ two-q

  joined_order : List Ptr
  joined_order = (order ++ p ∷ []) ++ q ∷ []

  done-Inv : Inv done (clock 1) joined_order
  unfolding done two answered joined_order
  done-Inv =
      Inv-set_live two p _ server-Added.inv (ap (λ (h : Handler Link). h.fd) (sym two-p))
        (ap (λ (h : Handler Link). h.deadline) (sym two-p))
        (ap (λ (h : Handler Link). h.registered) (sym two-p))
        (ap (λ (h : Handler Link). h.freed) (sym two-p)) (omega arith)

  done-Tunnel : Tunnel done (clock 1) joined_order p q 0 0
  unfolding answered joined_order
  done-Tunnel = record {
    inv = done-Inv;
    apart = apart;
    left = record {
      is_set = set_p;
      alive = ap (λ (h : Handler Link). h.freed) done-p;
      joined = ap (λ (h : Handler Link). h.derived.other) done-p;
      listed =
          snoc_mem p q (order ++ p ∷ []) (last_mem p order)
          ∙ sym (ap (λ (h : Handler Link). is_open h.derived) done-p);
      descriptor = rw done-p refl;
      counted = rw (done-p, done-q) refl;
    };
    right = record {
      is_set = set_q;
      alive = ap (λ (h : Handler Link). h.freed) done-q;
      joined = ap (λ (h : Handler Link). h.derived.other) done-q;
      listed =
          last_mem q (order ++ p ∷ []) ∙ sym (ap (λ (h : Handler Link). is_open h.derived) done-q);
      descriptor = rw done-q refl;
      counted = rw (done-p, done-q) refl;
    };
  }

  -- Both links join the loop as a tunnel that nobody else refers to, with the response on its way to
  -- the client.
  pub connect_links-Connected :
      IsSound b
      → IsSound d
      → IsNew b
      → IsNew d
      → Connected w (clock 1) order p q (connect_links epoll_ctl clock (length response) p q w)
  unfolding answered joined_order done one two
  connect_links-Connected sound_b sound_d new_b new_d =
      let fits : b.size + length response ≤ b.capacity = omega (arith, new_b.empty.0, new_b.room) in
      record {
        after = done;
        returns =
            j.returns epoll_ctl clock one two client-Added.returns server-Added.returns
              (deref-ok p two set_p (ap (λ (h : Handler Link). h.freed) two-p))
              (with_bytes response b) (rw two-p (write-ok response b fits new_b.ends.1))
            ∙ rw two-p refl;
        tunnel = done-Tunnel;
        there =
            rw (done-p, done-q)
              (record {
                sound = with_bytes-IsSound response b sound_b fits;
                fed = λ _. new_b.ends.1;
                drawn = λ _. new_b.ends.0;
              });
        back =
            rw (done-p, done-q)
              (record { sound = sound_d; fed = λ _. new_d.ends.1; drawn = λ _. new_d.ends.0 });
        open_ways = rw (done-p, done-q) (refl, refl, refl, refl);
        sent = rw (done-p, done-q) (ap (λ (z : Bytes). z ++ response) new_b.empty.1, new_d.empty.1);
        others = λ r np nq.
            ground (arith, server-Added.others r nq ∙ client-Added.others r np ∙ j.others r np nq);
      }
