-- ===== src/NodeList/Represents.antt =====
-- What it means that the nodes and ends of src/list.h hold a given sequence.
use hcproxy.Common.{
  ◌≡◌, refl, ◌≢◌, List, [], ◌∷◌, ◌++◌, arith, ◌==◌, if◌then◌else◌, ◌∈◌, ◌∉◌, Distinct, has-append,
}
use hcproxy.NodeList.{Ptr, null, Node, NodeList}

abbrev pub first : List Ptr → Ptr
first [] = null
first (x ∷ xs) = x

-- the last node of a sequence that stands behind `p`
abbrev pub last : Ptr → List Ptr → Ptr
last p [] = p
last p (x ∷ xs) = last x xs

-- From a node `p` on the links run through the sequence, forth and back.
abbrev pub Linked : (Ptr → Node) → Ptr → List Ptr → Type 0
Linked f p [] = Unit {0}
Linked f p (x ∷ xs) = (x ≢ null) × ((f x).prev ≡ p) × ((f x).next ≡ first xs) × Linked f x xs

-- The list holds the nodes `xs`, in this order, and every other node has no links.
pub record Holds (l : NodeList) (xs : List Ptr) : Type 0 where
  pub head_first : l.head ≡ first xs
  pub tail_last : l.tail ≡ last null xs
  pub linked : Linked l.nodes null xs
  pub distinct : Distinct xs
  pub loose : (p : Ptr) → p ∉ xs → ((l.nodes p).prev ≡ null) × ((l.nodes p).next ≡ null)

pub last-append :
    (p : Ptr) (xs : List Ptr) (n : Ptr) (ys : List Ptr) → last p (xs ++ n ∷ ys) ≡ last n ys
last-append p [] n ys = refl
last-append p (x ∷ xs) n ys = last-append x xs n ys

pub last-mem : (x : Ptr) (xs : List Ptr) → last x xs ∈ x ∷ xs
last-mem x [] = ground arith
last-mem x (y ∷ ys) = ground (arith, last-mem y ys)

pub ne-first : (x : Ptr) (ys : List Ptr) → x ≢ null → x ∉ ys → x ≢ first ys
ne-first x [] h m = h
ne-first x (y ∷ ys) h m = ground arith

pub ne-last : (x z : Ptr) (xs : List Ptr) → x ∉ z ∷ xs → x ≢ last z xs
ne-last x z xs m = ground (arith, last-mem z xs)

module _ (f : Ptr → Node) (n : Ptr) where
  -- The links of a node are its neighbours in the sequence.
  pub Linked-at :
      (p : Ptr) (xs ys : List Ptr)
      → Linked f p (xs ++ n ∷ ys)
      → ((f n).prev ≡ last p xs) × Linked f (last p xs) (n ∷ ys)
  Linked-at p [] ys l = (l.1, l)
  Linked-at p (x ∷ xs) ys l = Linked-at x xs ys l.3

  -- The neighbour in front links to the node.
  pub Linked-before :
      (p x : Ptr) (xs ys : List Ptr)
      → Linked f p (x ∷ (xs ++ n ∷ ys))
      → ((f (last x xs)).next ≡ n) × (last x xs ≢ null)
  Linked-before p x [] ys l = (l.2, l.0)
  Linked-before p x (z ∷ xs) ys l = Linked-before x z xs ys l.3

pub Linked-last :
    (f : Ptr → Node) (p x : Ptr) (xs : List Ptr) → Linked f p (x ∷ xs) → last x xs ≢ null
Linked-last f p x [] l = l.0
Linked-last f p x (y ∷ xs) l = Linked-last f x y xs l.3

pub Linked-null : (f : Ptr → Node) (p : Ptr) (xs : List Ptr) → Linked f p xs → null ∉ xs
Linked-null f p [] l = refl
Linked-null f p (x ∷ xs) l = ground (arith, Linked-null f x xs l.3)

pub ne-last-null : (a : Ptr) (xs : List Ptr) → a ≢ null → a ∉ xs → a ≢ last null xs
ne-last-null a [] h m = h
ne-last-null a (x ∷ xs) h m = ground (arith, last-mem x xs)

pub Distinct-append :
    (xs ys : List Ptr) (n : Ptr)
    → Distinct (xs ++ n ∷ ys)
    → (n ∉ xs) × (n ∉ ys) × Distinct (xs ++ ys)
Distinct-append [] ys n d = (refl, d.0, d.1)
Distinct-append (x ∷ xs) ys n d =
    ground (arith, Distinct-append xs ys n d.1, has-append x xs (n ∷ ys), has-append x xs ys)

-- `g` is `f` where the nodes around a gap between `t` and `q` are tied to one another.
abbrev pub Rewired : (f g : Ptr → Node) (n t q : Ptr) → Type 0
Rewired f g n t q =
    (a : Ptr)
    → a ≢ null
    → a ≢ n
    → ((g a).prev ≡ (if a == q then t else (f a).prev))
      × ((g a).next ≡ (if a == t then q else (f a).next))

module _ (f g : Ptr → Node) (n : Ptr) where
  Linked-frame :
      (p t q : Ptr) (zs : List Ptr)
      → Rewired f g n t q
      → Linked f p zs
      → n ∉ zs
      → t ∉ zs
      → q ∉ zs
      → Linked g p zs
  Linked-frame p t q [] r l hn ht hq = tt
  Linked-frame p t q (z ∷ zs) r l hn ht hq = ground (arith, r z, Linked-frame z t q zs r)

  -- The links without `n`.
  pub Linked-without :
      (p : Ptr) (xs ys : List Ptr)
      → Linked f p (xs ++ n ∷ ys)
      → Distinct (xs ++ n ∷ ys)
      → p ∉ xs ++ n ∷ ys
      → Rewired f g n (last p xs) (first ys)
      → Linked g p (xs ++ ys)
  Linked-without p [] [] l d h r = tt
  Linked-without p [] (y ∷ zs) l d h r = ground (arith, r y, Linked-frame y p y zs r)
  Linked-without p (x ∷ []) ys l d h r =
      ground
        (arith, r x, ne-first x ys, has-append x [] (n ∷ ys), Linked-without x [] ys l.3 d.1 d.0 r)
  Linked-without p (x ∷ z ∷ xs) ys l d h r = ground (
    arith,
    r x,
    ne-first x ys,
    ne-last x z xs,
    has-append x (z ∷ xs) (n ∷ ys),
    Linked-without x (z ∷ xs) ys l.3 d.1 d.0 r,
  )
