-- ===== src/Parser.antt =====
-- src/parser.cc: `EndsWith` and `ParseEventHandler::Read`. Bytes are numbers. `content` is the part
-- of the buffer `content_` that is filled, `content_.data()` up to `size_`, and `capacity` is
-- `content_.size()`. The socket's `read` is a parameter: it is given the room that is left.
pub mod Prefix
pub mod Request
pub mod Receive
pub mod Reading
pub mod Chunks
pub mod Events
pub mod Handling
pub mod Start
use hcproxy.Common.{
  ℕ, zero, suc, ◌+◌, ◌-◌, ◌%◌, ◌^◌, min, Bool, true, false, not, ◌&&◌, ◌||◌, Option, none, some,
  List, [], ◌∷◌, ◌++◌, Outcome, ok, stuck, ◌>>=◌, ◌>>◌, check, ltb, leb, ◌==◌, if◌then◌else◌,
  length, take, drop, has,
}

abbrev pub Bytes : Type 0
Bytes = List ℕ

-- `kConnectPrefix`
abbrev pub connect_prefix : Bytes
connect_prefix = b'C' ∷ b'O' ∷ b'N' ∷ b'N' ∷ b'E' ∷ b'C' ∷ b'T' ∷ b' ' ∷ []

abbrev pub end_mark : Bytes
end_mark = b'\r' ∷ b'\n' ∷ b'\r' ∷ b'\n' ∷ []

abbrev pub stops : Bytes
stops = b' ' ∷ b'\r' ∷ []

-- `memcmp(…) == 0` on two ranges of one length
unfoldable pub equal : Bytes → Bytes → Bool
equal [] [] = true
equal (x ∷ xs) (y ∷ ys) = x == y && equal xs ys
equal _ _ = false

unfoldable pub ends_with : Bytes → Bytes → Bool
ends_with s suffix =
    leb (length suffix) (length s) && equal (drop (length s - length suffix) s) suffix

-- where the first of `chars` stands
unfoldable pub find_in : Bytes → Bytes → Option ℕ
find_in chars [] = none
find_in chars (c ∷ cs) =
    if has c chars then some 0 else elim (find_in chars cs) [ none ↦ none | some i ↦ some (suc i) ]

abbrev npos : ℕ
npos = 0xffffffffffffffff

-- `string_view::find_first_of` and `substr`, which throws past the end
pub find_first_of : Bytes → Bytes → ℕ → ℕ
unfolding find_in
find_first_of s chars start = elim (find_in chars (drop start s)) [
  | none ↦ npos
  | some i ↦ start + i
]

pub substr : Bytes → ℕ → ℕ → Outcome Bytes
substr s start n = if leb start (length s) then ok (take n (drop start s)) else Outcome.fatal

-- a difference of two values of type `size_t`
pub sub_size : ℕ → ℕ → ℕ
sub_size a b = (a + 2 ^ 64 - b) % 2 ^ 64

pub host_port : Bytes → Outcome Bytes
host_port req =
    let start = length connect_prefix in
    substr req start (sub_size (find_first_of req stops start) start)

-- What a chunk of data leads to: the loop goes on, or `Read` returns this host_port.
pub data Verdict : Type 0 where
  more : Verdict
  answer : Bytes → Verdict

-- the comparison with the prefix, where some of it is still to come
pub prefix_fits : Bytes → Bytes → Bool
prefix_fits content chunk =
    if ltb (length content) (length connect_prefix)
    then (let n = min (length chunk) (length connect_prefix - length content) in
        equal (take n chunk) (take n (drop (length content) connect_prefix)))
    else true

judge : ℕ → Bytes → Bytes → Outcome (Verdict × Bytes)
judge capacity content chunk =
    if ends_with content end_mark
    then (do hp ← host_port content; ok (answer hp, content))
    else if length chunk == 0
    then ok (answer [], content)
    else if length content == capacity
    then ok (answer [], content)
    else ok (more, content)

-- the body of the loop, once `read` has returned the bytes `chunk`
pub receive : ℕ → Bytes → Bytes → Outcome (Verdict × Bytes)
receive capacity content chunk =
    if prefix_fits content chunk
    then judge capacity (content ++ chunk) chunk
    else ok (answer [], content)

-- the result of `read`: bytes, none at the end of the input, or -1 with an `errno`
pub data ReadResult : Type 0 where
  received : Bytes → ReadResult
  failed : ℕ → ReadResult

-- EAGAIN, which is EWOULDBLOCK on Linux
abbrev pub eagain : ℕ
eagain = 11

-- `Read` returns `nullopt` or a host_port; the content and the socket are what it leaves behind.
pub record Progress (W : Type 0) : Type 0 where
  pub result : Option Bytes
  pub content : Bytes
  pub socket : W

module _ {W : Type 0} (sys_read : ℕ → W → ReadResult × W) (capacity : ℕ) where
  abbrev pub give : Option Bytes → Bytes → W → Outcome (Progress W)
  give r content socket = ok (record { result = r; content = content; socket = socket })

  -- what follows in the loop's body; `again` is the next round
  abbrev pub conclude :
      (again : Bytes → W → Outcome (Progress W)) → W → Verdict → Bytes → Outcome (Progress W)
  conclude again socket more content = again content socket
  conclude again socket (answer hp) content = give (some hp) content socket

  abbrev react :
      (again : Bytes → W → Outcome (Progress W)) → Bytes → ReadResult → W → Outcome (Progress W)
  react again content (failed e) socket =
      if e == eagain then give none content socket else give (some []) content socket
  react again content (received chunk) socket =
      receive capacity content chunk >>= λ (v, content). conclude again socket v content

  -- the `while (true)` of `Read` on fuel
  pub read_loop : ℕ → Bytes → W → Outcome (Progress W)
  read_loop zero content socket = stuck
  read_loop (suc fuel) content socket =
      let (r, after) = sys_read (capacity - length content) socket in
      react (read_loop fuel) content r after

  pub read : Bytes → W → Outcome (Progress W)
  unfolding read_loop
  read content socket = do
    check (ltb (length content) capacity)
    read_loop (capacity - length content + 1) content socket
