-- ===== src/Parser/Request.antt =====
-- What a valid request is, by the comment above `ParseEventHandler` in src/parser.cc, and that the
-- source's search finds its host_port.
use hcproxy.Common.{
  take-append-drop, ℕ, ◌+◌, ◌-◌, ◌<◌, ◌^◌, ◌≡◌, refl, ap, sym, subst, ◌∙◌, true, [], ◌∷◌, ◌++◌,
  some, arith, length, take, drop, ◌∈◌, ◌∉◌, has, append_assoc, length-append, Bool-cases, inl, inr,
  ok, le→leb,
}
use hcproxy.Parser.{
  Bytes, connect_prefix, end_mark, stops, equal, ends_with, find_in, find_first_of, substr,
  sub_size, host_port,
}
use hcproxy.Parser.Prefix.{Agrees, Agrees-past}

-- No byte is a space or a carriage return.
abbrev pub Free : Bytes → Type 0
Free [] = Unit {0}
Free (x ∷ xs) = (x ∉ stops) × Free xs

abbrev pub StopsFirst : Bytes → Type 0
StopsFirst [] = ⊥
StopsFirst (x ∷ xs) = x ∈ stops

-- The regular expression "CONNECT ([^ \r]*).*\r\n\r\n", with the longest possible capture.
pub record IsRequest (c hp : Bytes) : Type 0 where
  pub rest : Bytes
  pub front : Bytes
  pub starts : c ≡ connect_prefix ++ (hp ++ rest)
  pub free : Free hp
  pub stopped : StopsFirst rest
  pub ends : rest ≡ front ++ end_mark

pub equal-eq : (xs ys : Bytes) → equal xs ys ≡ true → xs ≡ ys
unfolding equal
equal-eq [] [] h = refl
equal-eq [] (y ∷ ys) h = cc
equal-eq (x ∷ xs) [] h = cc
equal-eq (x ∷ xs) (y ∷ ys) h = ground (arith, equal-eq xs ys)

equal_refl : (xs : Bytes) → equal xs xs ≡ true
unfolding equal
equal_refl [] = refl
equal_refl (x ∷ xs) = ground (arith, equal_refl xs)

drop-append : (xs ys : Bytes) → drop (length xs) (xs ++ ys) ≡ ys
drop-append [] ys = refl
drop-append (x ∷ xs) ys = drop-append xs ys

take-append : (xs ys : Bytes) → take (length xs) (xs ++ ys) ≡ xs
take-append [] ys = refl
take-append (x ∷ xs) ys = ap (◌∷◌ x) (take-append xs ys)

ends_with-split :
    (s suffix : Bytes) → ends_with s suffix ≡ true → (front : Bytes) × (s ≡ front ++ suffix)
unfolding ends_with
ends_with-split s suffix h = (
  take n s,
  sym (take-append-drop n s) ∙ ap (◌++◌ (take n s)) (equal-eq (drop n s) suffix (ground arith)),
)
  where
    n : ℕ
    n = length s - length suffix

ends_with-append : (xs s : Bytes) → ends_with (xs ++ s) s ≡ true
unfolding ends_with
ends_with-append xs s =
    let e : length (xs ++ s) - length s ≡ length xs = omega (arith, length-append xs s) in
    rw (
      le→leb (length s) (length (xs ++ s)) (omega (arith, length-append xs s)),
      e,
      drop-append xs s,
      equal_refl s,
    )

find_in-stop :
    (hp rest : Bytes) → Free hp → StopsFirst rest → find_in stops (hp ++ rest) ≡ some (length hp)
unfolding find_in
find_in-stop [] [] f s = absurd s
find_in-stop [] (x ∷ xs) f s = rw s
find_in-stop (x ∷ hp) rest f s = rw (f.0, find_in-stop hp rest f.1 s)

sub_size-add : (a b : ℕ) → a < 2 ^ 63 → b < 2 ^ 63 → sub_size (a + b) a ≡ b
unfolding sub_size
sub_size-add a b h k = omega arith

-- `find_first_of` and `substr` cut out the host_port of a request.
pub host_port-IsRequest : (c hp : Bytes) → IsRequest c hp → length c < 2 ^ 63 → host_port c ≡ ok hp
unfolding host_port find_first_of substr
host_port-IsRequest c hp r small =
    let long : length c ≡ 8 + length hp + length r.rest =
      omega (arith, ap (length {0}) r.starts, length-append hp r.rest) in
    rw
      (
        r.starts,
        le→leb 8 (length (connect_prefix ++ (hp ++ r.rest))) (omega arith),
        find_in-stop hp r.rest r.free r.stopped,
        sub_size-add 8 (length hp) (omega arith) (omega arith),
      )
      (ap ok (take-append hp r.rest))

-- A text that ends in the mark, cut where its first stop stands.
record Cut (mid : Bytes) : Type 0 where
  before : Bytes
  after : Bytes
  front : Bytes
  joins : mid ++ end_mark ≡ before ++ after
  free : Free before
  stopped : StopsFirst after
  ends : after ≡ front ++ end_mark

cut : (mid : Bytes) → Cut mid
cut [] = record {
  before = [];
  after = end_mark;
  front = [];
  joins = refl;
  free = tt;
  stopped = refl;
  ends = refl;
}
cut (x ∷ mid) = elim (Bool-cases (has x stops)) [
  | inl s ↦ record {
    before = [];
    after = x ∷ (mid ++ end_mark);
    front = x ∷ mid;
    joins = refl;
    free = tt;
    stopped = s;
    ends = refl;
  }
  | inr f ↦
      let c = cut mid in
      record {
        before = x ∷ c.before;
        after = c.after;
        front = c.front;
        joins = ap (◌∷◌ x) c.joins;
        free = (f, c.free);
        stopped = c.stopped;
        ends = c.ends;
      }
]

-- Content that agrees with the prefix and ends in the mark is a request: the prefix has neither of
-- the mark's bytes, so it has been read in full.
pub IsRequest-complete :
    (c : Bytes)
    → Agrees connect_prefix c
    → ends_with c end_mark ≡ true
    → (hp : Bytes) × IsRequest c hp
IsRequest-complete c a e =
    let (front, s) = ends_with-split c end_mark e in
    let (mid, m) =
      Agrees-past connect_prefix front b'\r' (b'\n' ∷ b'\r' ∷ b'\n' ∷ []) (rw s at a) refl in
    let k = cut mid in
    (
      k.before,
      record {
        rest = k.after;
        front = k.front;
        starts =
            s
            ∙ ap (λ xs. xs ++ end_mark) m
            ∙ append_assoc connect_prefix mid end_mark
            ∙ ap (◌++◌ connect_prefix) k.joins;
        free = k.free;
        stopped = k.stopped;
        ends = k.ends;
      },
    )

pub IsRequest-ends : (c hp : Bytes) → IsRequest c hp → ends_with c end_mark ≡ true
IsRequest-ends c hp r =
    subst (λ x. ends_with x end_mark ≡ true)
      (sym (
        r.starts
        ∙ ap (λ x. connect_prefix ++ (hp ++ x)) r.ends
        ∙ ap (◌++◌ connect_prefix) (sym (append_assoc hp r.front end_mark))))
      (ends_with-append (connect_prefix ++ (hp ++ r.front)) end_mark)
