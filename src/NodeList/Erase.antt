-- ===== src/NodeList/Erase.antt =====
-- `List::Erase` of src/list.cc, on a list that holds a sequence.
use hcproxy.Common.{
  true, ◌≡◌, ◌≢◌, sym, ◌∙◌, List, [], ◌∷◌, ◌++◌, arith, ok, if◌then◌else◌, ◌∉◌, has-append,
  append-nil,
}
use hcproxy.NodeList.{
  Ptr, null, NodeList, is_set, set_prev, set_next, unlink_prev, unlink_next, both_or_neither, erase,
}
use hcproxy.NodeList.Represents.{
  first, last, Linked, Holds, Linked-at, Linked-before, Distinct-append, Linked-without,
  Linked-last, Linked-null, ne-last-null, Rewired, last-append, ne-last, ne-first,
}

-- the list after the first branch, and after both
without_prev : Ptr → (prev next : Ptr) → NodeList → NodeList
without_prev n prev next l =
    if is_set prev then set_prev n null (set_next prev next l) else record l { head = next }

without_next : Ptr → (prev next : Ptr) → NodeList → NodeList
without_next n prev next l =
    if is_set next then set_next n null (set_prev next prev l) else record l { tail = prev }

erased : Ptr → (prev next : Ptr) → NodeList → NodeList
unfolding without_prev without_next
erased n prev next l = without_next n prev next (without_prev n prev next l)

-- What the checks of `Erase` look at.
record Around (n prev next : Ptr) (l : NodeList) : Type 0 where
  node_set : n ≢ null
  prev_is : (l.nodes n).prev ≡ prev
  next_is : (l.nodes n).next ≡ next
  at_head : prev ≡ null → l.head ≡ n
  behind : prev ≢ null → (l.head ≢ n) × (l.head ≢ null) × ((l.nodes prev).next ≡ n)
  at_tail : next ≡ null → l.tail ≡ n
  before : next ≢ null → (l.tail ≢ n) × (l.tail ≢ null) × ((l.nodes next).prev ≡ n) × (next ≢ n)

module _ (n prev next : Ptr) (l : NodeList) (a : Around n prev next l) where
  unlink_prev-ok : unlink_prev n prev next l ≡ ok (without_prev n prev next l)
  unfolding unlink_prev without_prev
  unlink_prev-ok = ground (arith, a.at_head, a.behind)

  unlink_next-ok : unlink_next n prev next (without_prev n prev next l) ≡ ok (erased n prev next l)
  unfolding unlink_next erased
  unlink_next-ok = ground (arith, a.at_tail, a.before)

  both_or_neither-erased : both_or_neither (erased n prev next l) ≡ true
  unfolding both_or_neither erased
  both_or_neither-erased = ground (arith, a.behind, a.before)

  erase-Around : erase n l ≡ ok (erased n prev next l)
  unfolding erase
  erase-Around = ground (arith, unlink_prev-ok, unlink_next-ok, both_or_neither-erased)

module _ (l : NodeList) (n : Ptr) where
  around_prev :
      (xs ys : List Ptr)
      → Holds l (xs ++ n ∷ ys)
      → (last null xs ≡ null → l.head ≡ n)
        × (last null xs ≢ null
            → (l.head ≢ n) × (l.head ≢ null) × ((l.nodes (last null xs)).next ≡ n))
  around_prev [] ys h = ground arith
  around_prev (x ∷ xs) ys h = ground (
    arith,
    Linked-before l.nodes n null x xs ys h.linked,
    Distinct-append (x ∷ xs) ys n h.distinct,
  )

  around_next :
      (xs ys : List Ptr)
      → l.tail ≡ last n ys
      → Linked l.nodes (last null xs) (n ∷ ys)
      → n ∉ ys
      → (first ys ≡ null → l.tail ≡ n)
        × (first ys ≢ null
            → (l.tail ≢ n) × (l.tail ≢ null) × ((l.nodes (first ys)).prev ≡ n) × (first ys ≢ n))
  around_next xs [] t k d = ground arith
  around_next xs (y ∷ ys) t k d = (
    λ e. absurd (k.3.0 e),
    λ _. (
      rw t (λ e. ne-last n y ys d (sym e)),
      rw t (Linked-last l.nodes n y ys k.3),
      k.3.1,
      λ e. ne-first n (y ∷ ys) k.0 d (sym e),
    ),
  )

  Holds-Around : (xs ys : List Ptr) → Holds l (xs ++ n ∷ ys) → Around n (last null xs) (first ys) l
  Holds-Around xs ys h =
      let (p, k) = Linked-at l.nodes n null xs ys h.linked in
      let (u, v) = around_prev xs ys h in
      let (s, t) =
        around_next xs ys (h.tail_last ∙ last-append null xs n ys) k
          (Distinct-append xs ys n h.distinct).1 in
      record {
        node_set = k.0;
        prev_is = p;
        next_is = k.2;
        at_head = u;
        behind = v;
        at_tail = s;
        before = t;
      }

  erased_head :
      (prev next : Ptr) → (erased n prev next l).head ≡ (if is_set prev then l.head else next)
  unfolding erased
  erased_head prev next = ground arith

  erased_tail :
      (prev next : Ptr) → (erased n prev next l).tail ≡ (if is_set next then l.tail else prev)
  unfolding erased
  erased_tail prev next = ground arith

  module _ (prev next : Ptr) (a : Around n prev next l) where
    Rewired-erased : Rewired l.nodes (erased n prev next l).nodes n prev next
    unfolding erased
    Rewired-erased b hb hn = ground (arith, a.before)

    erased-loose :
        (((erased n prev next l).nodes n).prev ≡ null)
        × (((erased n prev next l).nodes n).next ≡ null)
    unfolding erased
    erased-loose = ground (arith, a.prev_is, a.next_is, a.before)

    erased-null : (erased n prev next l).nodes null ≡ l.nodes null
    unfolding erased
    erased-null = ground (arith, a.node_set)

  head_first :
      (xs ys : List Ptr)
      → Holds l (xs ++ n ∷ ys)
      → (erased n (last null xs) (first ys) l).head ≡ first (xs ++ ys)
  head_first [] ys h = erased_head null (first ys)
  head_first (x ∷ xs) ys h =
      ground
        (arith, erased_head (last x xs) (first ys), Linked-before l.nodes n null x xs ys h.linked)

  tail_last :
      (xs ys : List Ptr)
      → Holds l (xs ++ n ∷ ys)
      → (erased n (last null xs) (first ys) l).tail ≡ last null (xs ++ ys)
  tail_last xs [] h = rw append-nil (erased_tail (last null xs) null)
  tail_last xs (y ∷ ys) h = ground (
    arith,
    erased_tail (last null xs) y,
    last-append null xs y ys,
    last-append null xs n (y ∷ ys),
    Linked-at l.nodes n null xs (y ∷ ys) h.linked,
  )

  loose :
      (xs ys : List Ptr)
      → Holds l (xs ++ n ∷ ys)
      → (p : Ptr) → p ∉ xs ++ ys
      → (((erased n (last null xs) (first ys) l).nodes p).prev ≡ null)
        × (((erased n (last null xs) (first ys) l).nodes p).next ≡ null)
  loose xs ys h p out = ground (
    arith,
    h.loose p,
    has-append p xs ys,
    has-append p xs (n ∷ ys),
    ne-last-null p xs,
    ne-first p ys,
    Rewired-erased (last null xs) (first ys) (Holds-Around xs ys h) p,
    erased-loose (last null xs) (first ys) (Holds-Around xs ys h),
    erased-null (last null xs) (first ys) (Holds-Around xs ys h),
  )

  erased-Holds :
      (xs ys : List Ptr)
      → Holds l (xs ++ n ∷ ys)
      → Holds (erased n (last null xs) (first ys) l) (xs ++ ys)
  erased-Holds xs ys h = record {
    head_first = head_first xs ys h;
    tail_last = tail_last xs ys h;
    linked =
        Linked-without l.nodes _ n null xs ys h.linked h.distinct
          (Linked-null l.nodes null (xs ++ n ∷ ys) h.linked)
          (Rewired-erased _ _ (Holds-Around xs ys h));
    distinct = (Distinct-append xs ys n h.distinct).2;
    loose = loose xs ys h;
  }

  -- `Erase` of any node that stands in the list runs through all its checks, and leaves the
  -- sequence without that node; the node itself is left with no links.
  pub erase-Holds :
      (xs ys : List Ptr)
      → Holds l (xs ++ n ∷ ys)
      → (m : NodeList) × (erase n l ≡ ok m) × Holds m (xs ++ ys)
  erase-Holds xs ys h = (
    erased n (last null xs) (first ys) l,
    erase-Around n _ _ l (Holds-Around xs ys h),
    erased-Holds xs ys h,
  )
