-- ===== src/NodeList.antt =====
-- The intrusive doubly linked list of src/list.h and src/list.cc. A `Node*` is an address, null is
-- 0, and the nodes, which the list does not own, live in a store that the list's record carries.
pub mod Represents
pub mod Erase
pub mod AddTail
use hcproxy.Common.{
  ℕ, ◌≡◌, ◌≢◌, arith, true, ==_refl, Bool, not, ◌&&◌, Outcome, ok, ◌>>=◌, ◌>>◌, check, ◌==◌,
  if◌then◌else◌,
}

abbrev pub Ptr : Type 0
Ptr = ℕ

abbrev pub null : Ptr
null = 0

-- `class Node`
pub record Node : Type 0 where
  pub prev : Ptr
  pub next : Ptr

-- `class List`, with the store of all nodes
pub record NodeList : Type 0 where
  pub nodes : Ptr → Node
  pub head : Ptr
  pub tail : Ptr

abbrev pub is_set : Ptr → Bool
is_set p = not (p == null)

abbrev pub update {ℓ} : {A : Type ℓ} → (Ptr → A) → Ptr → A → Ptr → A
update f p v a = if a == p then v else f a

abbrev pub set_prev : Ptr → Ptr → NodeList → NodeList
set_prev p q l = record l { nodes = update l.nodes p (record (l.nodes p) { prev = q }) }

abbrev pub set_next : Ptr → Ptr → NodeList → NodeList
set_next p q l = record l { nodes = update l.nodes p (record (l.nodes p) { next = q }) }

-- the two branches of `List::AddTail`
append_link : Ptr → NodeList → Outcome NodeList
append_link n l =
    if is_set l.tail
    then (do
      check (is_set l.head)
      check (not (is_set (l.nodes l.tail).next))
      ok (set_next l.tail n l))
    else (do check (not (is_set l.head)); ok (record l { head = n }))

pub add_tail : Ptr → NodeList → Outcome NodeList
unfolding append_link
add_tail n l = do
  check (is_set n)
  check (not (is_set (l.nodes n).prev))
  check (not (is_set (l.nodes n).next))
  m ← append_link n l
  let m = set_next n null (set_prev n m.tail m)
  let m = record m { tail = n }
  check (is_set m.head && is_set m.tail)
  ok m

-- the first and the second branch of `List::Erase`
unlink_prev : Ptr → Ptr → Ptr → NodeList → Outcome NodeList
unlink_prev n prev next l =
    if is_set prev
    then (do
      check (not (l.head == n))
      check ((l.nodes prev).next == n)
      ok (set_prev n null (set_next prev next l)))
    else (do check (l.head == n); ok (record l { head = next }))

unlink_next : Ptr → Ptr → Ptr → NodeList → Outcome NodeList
unlink_next n prev next l =
    if is_set next
    then (do
      check (not (l.tail == n))
      check ((l.nodes next).prev == n)
      ok (set_next n null (set_prev next prev l)))
    else (do check (l.tail == n); ok (record l { tail = prev }))

both_or_neither : NodeList → Bool
both_or_neither l = if is_set l.head then is_set l.tail else not (is_set l.tail)

pub erase : Ptr → NodeList → Outcome NodeList
unfolding unlink_prev unlink_next both_or_neither
erase n l = do
  check (is_set n)
  let prev = (l.nodes n).prev
  let next = (l.nodes n).next
  m ← unlink_prev n prev next l
  m ← unlink_next n prev next m
  check (both_or_neither m)
  ok m

pub update_self {ℓ} : {A : Type ℓ} (f : Ptr → A) (p : Ptr) (v : A) → update f p v p ≡ v
update_self f p v = rw (==_refl p)

pub is_set_of : (p : Ptr) → p ≢ null → is_set p ≡ true
is_set_of p h = ground arith
