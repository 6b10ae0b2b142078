-- ===== src/NodeList/AddTail.antt =====
-- `List::AddTail` of src/list.cc, on a list that holds a sequence.
use hcproxy.Common.{
  ◌&&◌, ◌==◌, ◌≡◌, ◌≢◌, true, refl, sym, ◌∙◌, List, [], ◌∷◌, ◌++◌, arith, ok, if◌then◌else◌, ◌∉◌,
  Distinct, has-append,
}
use hcproxy.NodeList.{Ptr, null, Node, NodeList, is_set, set_prev, set_next, append_link, add_tail}
use hcproxy.NodeList.Represents.{
  first, last, Linked, Holds, Linked-last, ne-last-null, ne-last, last-append,
}

-- the list after the two branches, and at the end
linked_behind : Ptr → NodeList → NodeList
linked_behind n l = if is_set l.tail then set_next l.tail n l else record l { head = n }

extended : Ptr → NodeList → NodeList
extended n l =
    let m = linked_behind n l in record (set_next n null (set_prev n m.tail m)) { tail = n }

-- What the checks of `AddTail` look at.
record Behind (n : Ptr) (l : NodeList) : Type 0 where
  node_set : n ≢ null
  no_prev : (l.nodes n).prev ≡ null
  no_next : (l.nodes n).next ≡ null
  empty : l.tail ≡ null → l.head ≡ null
  filled : l.tail ≢ null → (l.head ≢ null) × ((l.nodes l.tail).next ≡ null) × (n ≢ l.tail)

module _ (n : Ptr) (l : NodeList) (b : Behind n l) where
  append_link-ok : append_link n l ≡ ok (linked_behind n l)
  unfolding append_link linked_behind
  append_link-ok = ground (arith, b.empty, b.filled)

  head_set : is_set (extended n l).head ≡ true
  unfolding extended linked_behind
  head_set = ground (arith, b.node_set, b.filled)

  add_tail-Behind : add_tail n l ≡ ok (extended n l)
  unfolding add_tail extended
  add_tail-Behind = ground (arith, append_link-ok, head_set, b.node_set)

  -- only the old tail and `n` change
  extended_nodes :
      (a : Ptr)
      → ((extended n l).nodes a ≡ (
          if a == n
          then record { prev = l.tail; next = null }
          else if a == l.tail && is_set a
          then record { prev = (l.nodes a).prev; next = n }
          else l.nodes a))
  unfolding extended linked_behind
  extended_nodes a = ground (arith, b.filled)

  extended_other : (a : Ptr) → a ≢ n → (a ≢ null → a ≢ l.tail) → (extended n l).nodes a ≡ l.nodes a
  extended_other a ha ht = ground (arith, extended_nodes a)

  extended_head : (extended n l).head ≡ (if is_set l.tail then l.head else n)
  unfolding extended linked_behind
  extended_head = ground arith

  extended_tail : (extended n l).tail ≡ n
  unfolding extended linked_behind
  extended_tail = ground arith

abbrev Joined : (f g : Ptr → Node) (n t : Ptr) → Type 0
Joined f g n t =
    (a : Ptr)
    → a ≢ null
    → a ≢ n
    → ((g a).prev ≡ (f a).prev) × ((g a).next ≡ (if a == t then n else (f a).next))

Linked-snoc :
    (f g : Ptr → Node) (n p : Ptr) (xs : List Ptr)
    → Linked f p xs
    → Distinct xs
    → n ∉ xs
    → n ≢ null
    → Joined f g n (last p xs)
    → g n ≡ record { prev = last p xs; next = null }
    → Linked g p (xs ++ n ∷ [])
Linked-snoc f g n p [] l d out hn j e = ground arith
Linked-snoc f g n p (x ∷ []) l d out hn j e = ground (arith, j x)
Linked-snoc f g n p (x ∷ z ∷ xs) l d out hn j e = (
  l.0,
  (j x l.0 (ne_of x z xs out)).0 ∙ l.1,
  joined_next x n (last z xs) (j x l.0 (ne_of x z xs out)).1 (ne-last x z xs d.0) ∙ l.2,
  Linked-snoc f g n x (z ∷ xs) l.3 d.1 (out_of x z xs out) hn j e,
)
  where
    ne_of : (x z : Ptr) (xs : List Ptr) → n ∉ x ∷ z ∷ xs → x ≢ n
    ne_of x z xs out = ground arith

    out_of : (x z : Ptr) (xs : List Ptr) → n ∉ x ∷ z ∷ xs → n ∉ z ∷ xs
    out_of x z xs out = ground arith

    joined_next : (x n t : Ptr) {u v : Ptr} → u ≡ (if x == t then n else v) → x ≢ t → u ≡ v
    joined_next x n t h ne = ground arith

Distinct-snoc : (xs : List Ptr) (n : Ptr) → Distinct xs → n ∉ xs → Distinct (xs ++ n ∷ [])
Distinct-snoc [] n d out = (refl, tt)
Distinct-snoc (x ∷ xs) n d out = ground (arith, has-append x xs (n ∷ []), Distinct-snoc xs n d.1)

Linked-last_next :
    (f : Ptr → Node) (p x : Ptr) (xs : List Ptr) → Linked f p (x ∷ xs) → (f (last x xs)).next ≡ null
Linked-last_next f p x [] l = l.2
Linked-last_next f p x (y ∷ xs) l = Linked-last_next f x y xs l.3

module _ (n : Ptr) (l : NodeList) where
  Holds-Behind : (xs : List Ptr) → Holds l xs → n ≢ null → n ∉ xs → Behind n l
  Holds-Behind [] h hn out = ground (arith, h.loose n)
  Holds-Behind (x ∷ xs) h hn out = ground (
    arith,
    h.loose n,
    Linked-last l.nodes null x xs h.linked,
    Linked-last_next l.nodes null x xs h.linked,
    ne-last n x xs,
  )

  module _ (b : Behind n l) (xs : List Ptr) (h : Holds l xs) (hn : n ≢ null) where
    extended-Joined : Joined l.nodes (extended n l).nodes n (last null xs)
    extended-Joined a ha hna = ground (arith, extended_nodes n l b a, h.tail_last)

    extended_at : (extended n l).nodes n ≡ record { prev = last null xs; next = null }
    extended_at = ground (arith, extended_nodes n l b n, h.tail_last)

    apart : (p : Ptr) → p ∉ xs ++ n ∷ [] → (p ≢ n) × (p ∉ xs)
    apart p out = ground (arith, has-append p xs (n ∷ []))

    extended_loose :
        (p : Ptr)
        → p ∉ xs ++ n ∷ []
        → (((extended n l).nodes p).prev ≡ null) × (((extended n l).nodes p).next ≡ null)
    extended_loose p out =
        let (ne, rest) = apart p out in
        rw (extended_other n l b p ne (λ e. rw h.tail_last (ne-last-null p xs e rest)))
          (h.loose p rest)

  extended-first :
      (b : Behind n l) (xs : List Ptr) → Holds l xs → (extended n l).head ≡ first (xs ++ n ∷ [])
  extended-first b [] h = ground (arith, extended_head n l b, h.tail_last)
  extended-first b (x ∷ xs) h =
      ground (arith, extended_head n l b, h.tail_last, Linked-last l.nodes null x xs h.linked)

  extended-Holds :
      (b : Behind n l) (xs : List Ptr)
      → Holds l xs
      → n ≢ null
      → n ∉ xs
      → Holds (extended n l) (xs ++ n ∷ [])
  extended-Holds b xs h hn out = record {
    head_first = extended-first b xs h;
    tail_last = extended_tail n l b ∙ sym (last-append null xs n []);
    linked =
        Linked-snoc l.nodes _ n null xs h.linked h.distinct out hn (extended-Joined b xs h hn)
          (extended_at b xs h hn);
    distinct = Distinct-snoc xs n h.distinct out;
    loose = extended_loose b xs h hn;
  }

  -- `AddTail` of a node that stands in no list runs through all its checks, and puts the node
  -- behind the sequence.
  pub add_tail-Holds :
      (xs : List Ptr)
      → Holds l xs
      → n ≢ null
      → n ∉ xs
      → (m : NodeList) × (add_tail n l ≡ ok m) × Holds m (xs ++ n ∷ [])
  add_tail-Holds xs h hn out =
      let b = Holds-Behind xs h hn out in
      (extended n l, add_tail-Behind n l b, extended-Holds b xs h hn out)
