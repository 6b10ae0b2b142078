-- ===== src/Tests/Loops.antt =====
-- The event loop of src/event_loop.cc with two connection attempts of src/connector.cc in it, and a
-- third that is not registered.
use hcproxy.Common.{
  ℕ, ◌+◌, ◌≡◌, ◌≢◌, ◌⊎◌, refl, true, false, Bool, ◌||◌, some, [], ◌∷◌, arith, ok, ◌==◌,
  if◌then◌else◌,
}
use hcproxy.NodeList.{Ptr, Node, NodeList, add_tail, erase}
use hcproxy.NodeList.Represents.{Holds}
use hcproxy.NodeList.AddTail.{add_tail-Holds}
use hcproxy.NodeList.Erase.{erase-Holds}
use hcproxy.Epoll.{CtlCall, CtlOp, EPoll, allows, IsDocumented}
use hcproxy.EventLoop.{Handler, EventLoop, add, remove, refresh}
use hcproxy.EventLoop.Invariant.{Inv, IsLive}
use hcproxy.EventLoop.Add.{CanAdd, add-Inv}
use hcproxy.EventLoop.Remove.{remove-Inv}
use hcproxy.EventLoop.Refresh.{refresh-Inv}
use hcproxy.EventLoop.Cycle.Expiry.{Swept, expire_due-Swept}
use hcproxy.Bits.{has_bits, epoll_out, epoll_err}
use hcproxy.Addr.{SockOpt, CanTell}
use hcproxy.Connector.{ConnectHandler, destroy, finish, on_event}
use hcproxy.Connector.Finish.{Ended, finish-Ended, on_event-Ended}
use hcproxy.Connector.Expiry.{callbacks, on_timeout-Retires}
use hcproxy.Connector.Connect.{Attempted, opened, connect_async, connect_async-Attempted}

abbrev nodes : Ptr → Node
nodes p =
    if p == 1
    then record { prev = 0; next = 2 }
    else if p == 2
    then record { prev = 1; next = 0 }
    else record { prev = 0; next = 0 }

abbrev pub pair : NodeList
pair = record { nodes = nodes; head = 1; tail = 2 }

pub pair-Holds : Holds pair (1 ∷ 2 ∷ [])
pair-Holds = record {
  head_first = refl;
  tail_last = refl;
  linked = omega arith;
  distinct = (refl, (refl, tt));
  loose = λ p out. ground arith;
}

add_tail-Holds_example : (m : NodeList) × (add_tail 3 pair ≡ ok m) × Holds m (1 ∷ 2 ∷ 3 ∷ [])
add_tail-Holds_example = add_tail-Holds 3 pair (1 ∷ 2 ∷ []) pair-Holds (omega arith) refl

erase-Holds_example : (m : NodeList) × (erase 2 pair ≡ ok m) × Holds m (1 ∷ [])
erase-Holds_example = erase-Holds pair 2 (1 ∷ []) [] pair-Holds

abbrev handler : ℕ → ℕ → Bool → ℕ → Handler ConnectHandler
handler fd deadline registered refs = record {
  fd = fd;
  deadline = deadline;
  registered = registered;
  ref_count = refs;
  freed = false;
  derived = record { effects = [] };
}

abbrev handlers : Ptr → Handler ConnectHandler
handlers p =
    if p == 1
    then handler 11 100 true 2
    else if p == 2
    then handler 12 150 true 2
    else handler 13 0 false 0

abbrev ctl_add : ℕ → ℕ → CtlCall
ctl_add fd p = record { op = CtlOp.add; fd = fd; events = epoll_out; handler = p }

abbrev pub poll : EPoll
poll = record {
  calls = ctl_add 12 2 ∷ ctl_add 11 1 ∷ ctl_add 10 0 ∷ [];
  slots = 4;
  room = 4;
  total_events = 3;
  ready_events = 0;
}

abbrev pub two : EventLoop ConnectHandler
two = record { handlers = handlers; epoll = poll; expire = pair; timeout = 60; on_thread = true }

two-IsLive : (p : Ptr) → (p == 1 || (p == 2 || false)) ≡ true → IsLive two p
two-IsLive p i = record {
  registered = ground arith;
  alive = ground arith;
  referred = ground arith;
  watches = ground arith;
}

pub two-Inv : Inv two 90 (1 ∷ 2 ∷ [])
two-Inv = record {
  on_thread = refl;
  ordered = pair-Holds;
  rising = omega arith;
  recent = λ p i. ground arith;
  counted = refl;
  live = two-IsLive;
  away = λ p o. ground arith;
  own_fd = λ p q i j e. ground arith;
}

pub allows-IsDocumented : IsDocumented allows
allows-IsDocumented = record { succeeds = λ cs c h. h }

third : CanAdd two 3
third = record { is_set = omega arith; alive = refl; unregistered = refl; unwatched = refl }

add-Inv_example :
    (u : EventLoop ConnectHandler) × (add allows 95 3 epoll_out two ≡ ok u)
    × Inv u 95 (1 ∷ 2 ∷ 3 ∷ [])
    × ((u.handlers 3).deadline ≡ 155)
    × ((u.handlers 3).ref_count ≡ 1)
add-Inv_example = add-Inv two 3 95 epoll_out allows allows-IsDocumented (omega arith) two-Inv third

remove-Inv_example :
    (u : EventLoop ConnectHandler) × (remove allows destroy 1 two ≡ ok u)
    × Inv u 90 (2 ∷ [])
    × ((u.handlers 1).ref_count + 1 ≡ 2)
    × ((u.handlers 1).freed ≡ false)
    × (u.handlers 1 ≡ handler 11 100 false 1)
    × ((q : Ptr) → q ≢ 1 → u.handlers q ≡ handlers q)
remove-Inv_example =
    remove-Inv two 1 allows allows-IsDocumented destroy (record { effects = [] }) refl [] (2 ∷ [])
      two-Inv (omega arith)

refresh-Inv_example :
    (u : EventLoop ConnectHandler) × (refresh 99 1 two ≡ ok u)
    × Inv u 99 (2 ∷ 1 ∷ [])
    × (u.handlers 1 ≡ handler 11 159 true 2)
    × ((q : Ptr) → q ≢ 1 → u.handlers q ≡ handlers q)
refresh-Inv_example = refresh-Inv two 1 99 [] (2 ∷ []) (omega arith) two-Inv (omega arith)

-- the clock's readings
abbrev clock : ℕ → ℕ
clock i = 120 + i

abbrev pub closes : ℕ → Bool
closes fd = true

abbrev pub no_error : ℕ → SockOpt
no_error fd = record { done = true; err = 0; len = 4 }

pub no_error-CanTell : CanTell no_error
no_error-CanTell = record { succeeds = λ fd. refl; is_int = λ fd. refl }

expire_due-Swept_example : Swept (callbacks allows closes no_error ok) clock two 90 (1 ∷ 2 ∷ []) 5 0
expire_due-Swept_example =
    expire_due-Swept (callbacks allows closes no_error ok) clock
      (on_timeout-Retires allows closes no_error ok allows-IsDocumented (λ fd. refl)) 5 0 two
      (1 ∷ 2 ∷ []) two-Inv (omega arith)

finish-Ended_example : Ended two 1 90 111 (2 ∷ []) (finish allows closes no_error 111 1 two)
finish-Ended_example =
    finish-Ended allows allows-IsDocumented closes (λ fd. refl) no_error two 1 111 [] (2 ∷ [])
      two-Inv (omega arith) (omega arith)

on_event-Ended_example :
    (((has_bits 4 epoll_err || has_bits 4 epoll_out) ≡ true)
      × Ended two 2 90 0 (1 ∷ []) (on_event allows closes no_error 2 4 two))
    ⊎ (((has_bits 4 epoll_err || has_bits 4 epoll_out) ≡ false)
        × (on_event allows closes no_error 2 4 two ≡ ok two))
on_event-Ended_example =
    on_event-Ended allows allows-IsDocumented closes (λ fd. refl) no_error no_error-CanTell two 2 4
      (1 ∷ []) [] two-Inv (omega arith) (omega arith)

connect_async-Attempted_example :
    Attempted closes closes
      (λ fd. some 111)
      (opened 7)
      (connect_async (opened 7) closes closes (λ fd. some 111))
connect_async-Attempted_example = connect_async-Attempted (opened 7) closes closes (λ fd. some 111)
