-- ===== src/Tests/Requests.antt =====
-- The parser of src/parser.cc on the request "CONNECT a:1\r\n\r\n", which arrives in three pieces.
use hcproxy.Common.{
  length-take, ℕ, zero, suc, ◌≤◌, ◌≡◌, ◌≢◌, refl, ap, sym, ◌∙◌, Bool, true, false, not, ◌&&◌, some,
  List, [], ◌∷◌, ◌++◌, arith, ok, length, take, append-nil, append_assoc, subst, ◌↔◌,
}
use hcproxy.Parser.{
  Bytes, ReadResult, received, Progress, connect_prefix, end_mark, ends_with, equal, host_port,
  prefix_fits, receive, read,
}
use hcproxy.Parser.Prefix.{Agrees, prefix_fits_iff}
use hcproxy.Parser.Request.{IsRequest, host_port-IsRequest, IsRequest-complete}
use hcproxy.Parser.Receive.{Received, receive-Received}
use hcproxy.Parser.Reading.{IsBounded, IsSound, read-Sound}
use hcproxy.Parser.Chunks.{Delivers, last, next, EndsOnce, read_pieces}

abbrev pub first : Bytes
first = b'C' ∷ b'O' ∷ b'N' ∷ b'N' ∷ []

abbrev pub second : Bytes
second = b'E' ∷ b'C' ∷ b'T' ∷ b' ' ∷ b'a' ∷ b':' ∷ b'1' ∷ b'\r' ∷ b'\n' ∷ b'\r' ∷ []

abbrev pub third : Bytes
third = b'\n' ∷ []

abbrev pub target : Bytes
target = b'a' ∷ b':' ∷ b'1' ∷ []

abbrev request : Bytes
request = first ++ (second ++ third)

-- A socket that holds what is still to arrive.
abbrev pub sys_read : ℕ → List Bytes → ReadResult × List Bytes
sys_read n [] = (received [], [])
sys_read n (c ∷ cs) = (received (take n c), cs)

take_all : (n : ℕ) (xs : Bytes) → length xs ≤ n → take n xs ≡ xs
take_all zero [] h = refl
take_all zero (x ∷ xs) h = absurd (omega arith)
take_all (suc n) [] h = refl
take_all (suc n) (x ∷ xs) h = ap (◌∷◌ x) (take_all n xs (omega arith))

unwrap : ReadResult → Bytes
unwrap (received c) = c
unwrap _ = []

at_most : (n : ℕ) (s : List Bytes) → length (unwrap (sys_read n s).0) ≤ n
unfolding unwrap
at_most n [] = omega arith
at_most n (c ∷ cs) = length-take n c

pub sys_read-IsBounded : IsBounded sys_read
unfolding unwrap
sys_read-IsBounded = record {
  bounded = λ n s c e. subst (λ x. length x ≤ n) (ap unwrap e) (at_most n s);
}

delivers_all :
    (c : Bytes) (cs : List Bytes) (n : ℕ) → length c ≤ n → sys_read n (c ∷ cs) ≡ (received c, cs)
delivers_all c cs n h = rw (take_all n c h)

in_pieces : Delivers sys_read (first ∷ second ∷ third ∷ []) (first ∷ second ∷ third ∷ [])
in_pieces =
    next (λ e. cc) (delivers_all first _)
      (next (λ e. cc) (delivers_all second _) (last (λ e. cc) (delivers_all third [])))

-- no shorter start ends in the mark
never : Bytes → Bytes → Bool
never front [] = true
never front (x ∷ rest) = not (ends_with front end_mark) && never (front ++ x ∷ []) rest

never_ends :
    (front c xs ys : Bytes)
    → never front c ≡ true
    → xs ++ ys ≡ c
    → ys ≢ []
    → ends_with (front ++ xs) end_mark ≡ false
unfolding never
never_ends front [] xs ys h e ne = absurd (nothing xs e)
  where
    nothing : (xs : Bytes) → xs ++ ys ≡ [] → ⊥
    nothing [] e = ne e
    nothing (x ∷ xs) e = cc
never_ends front (c ∷ cs) [] ys h e ne = rw (append-nil front) (ground arith)
never_ends front (c ∷ cs) (x ∷ xs) ys h e ne =
    let x_c : x ≡ c = cc in
    let rest : xs ++ ys ≡ cs = cc in
    let good : never (front ++ c ∷ []) cs ≡ true = ground arith in
    rw x_c (
      ap (λ v. ends_with v end_mark) (sym (append_assoc front (c ∷ []) xs))
      ∙ never_ends (front ++ c ∷ []) cs xs ys good rest ne)

request-EndsOnce : EndsOnce request
unfolding never ends_with equal
request-EndsOnce xs ys e ne = never_ends [] request xs ys refl e ne

request-IsRequest : IsRequest request target
request-IsRequest = record {
  rest = end_mark;
  front = [];
  starts = refl;
  free = (refl, (refl, (refl, tt)));
  stopped = refl;
  ends = refl;
}

request-Agrees : Agrees connect_prefix request
request-Agrees = (refl, (refl, (refl, (refl, (refl, (refl, (refl, (refl, tt))))))))

pub first-Agrees : Agrees connect_prefix first
first-Agrees = (refl, (refl, (refl, (refl, tt))))

prefix_fits_iff_example :
    (prefix_fits first second ≡ true) ↔ Agrees connect_prefix (first ++ second)
prefix_fits_iff_example = prefix_fits_iff first second first-Agrees

host_port-IsRequest_example : host_port request ≡ ok target
host_port-IsRequest_example = host_port-IsRequest request target request-IsRequest (omega arith)

IsRequest-complete_example : (hp : Bytes) × IsRequest request hp
unfolding ends_with equal
IsRequest-complete_example = IsRequest-complete request request-Agrees refl

receive-Received_example : Received 512 first second (receive 512 first second)
receive-Received_example = receive-Received 512 first second first-Agrees (omega arith)

read-Sound_example :
    (p : Progress (List Bytes)) × (read sys_read 512 first (second ∷ third ∷ []) ≡ ok p)
    × IsSound 512 p
read-Sound_example =
    read-Sound sys_read 512 sys_read-IsBounded (omega arith) first (second ∷ third ∷ [])
      first-Agrees (omega arith)

read_pieces_example :
    (t : List Bytes) × (read sys_read 512 [] (first ∷ second ∷ third ∷ [])
      ≡ ok (record { result = some target; content = request; socket = t }))
read_pieces_example =
    read_pieces request-IsRequest request-EndsOnce 512 (omega arith) (omega arith) sys_read
      in_pieces refl
