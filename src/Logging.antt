-- ===== src/Logging.antt =====
-- src/logging.h and src/logging.cc: the macro `LOG` and the stream behind it. The C library's part is
-- a parameter: how it formats the time, numbers and errors, and what its calls leave in `errno`.
pub mod Statement
use hcproxy.Common.{
  ℕ, zero, suc, ◌+◌, Bool, true, false, Option, none, some, List, [], ◌∷◌, ◌++◌, ltb, if◌then◌else◌,
}
use hcproxy.Parser.{Bytes}

pub data Severity : Type 0 where
  info warn error fatal : Severity

-- the value of the enumerator
abbrev pub rank : Severity → ℕ
rank info = 0
rank warn = 1
rank error = 2
rank fatal = 3

-- `Str`
abbrev pub str : Severity → Bytes
str info = b'I' ∷ b'N' ∷ b'F' ∷ b'O' ∷ []
str warn = b'W' ∷ b'A' ∷ b'R' ∷ b'N' ∷ []
str error = b'E' ∷ b'R' ∷ b'R' ∷ b'O' ∷ b'R' ∷ []
str fatal = b'F' ∷ b'A' ∷ b'T' ∷ b'A' ∷ b'L' ∷ []

-- what a statement puts into the stream: something printed as it is, `Errno(err)`, or `Errno()`
pub data Part : Type 0 where
  text : Bytes → Part
  err : ℕ → Part
  stashed : Part

-- `strftime` (`none` for 0), `%d` and `strerror_r`, and what the i-th step of a statement leaves in
-- `errno`
pub record Library : Type 0 where
  pub strftime : Option Bytes
  pub decimal : ℕ → Bytes
  pub strerror : ℕ → Bytes
  pub leaves : ℕ → ℕ → ℕ

-- `errno`, and the lines on stderr
pub record World : Type 0 where
  pub errno : ℕ
  pub stderr : List Bytes

-- `class LogStreamBase`
pub record LogStream : Type 0 where
  pub errno : ℕ
  pub file : Bytes
  pub line : ℕ
  pub severity : Severity
  pub strm : Bytes

-- a statement ends, or the program
pub data Logged : Type 0 where
  goes_on : World → Logged
  aborts : World → Logged

-- the destructors of `LogStream<severity>` and of `LogStream<FATAL>`, after `Flush`
abbrev pub destroy_stream : Severity → World → Logged
destroy_stream info w = goes_on w
destroy_stream warn w = goes_on w
destroy_stream error w = goes_on w
destroy_stream fatal w = aborts w

module _ (c : Library) where
  -- the constructor
  abbrev pub open_stream : Bytes → ℕ → Severity → World → LogStream
  open_stream file line severity w = record {
    errno = w.errno;
    file = file;
    line = line;
    severity = severity;
    strm = [];
  }

  abbrev pub disturb : ℕ → World → World
  disturb i w = record w { errno = c.leaves i w.errno }

  -- the overloads of `<<`
  abbrev pub put : Part → LogStream → LogStream
  put (text t) s = record s { strm = s.strm ++ t }
  put (err e) s = record s { strm = s.strm ++ c.strerror e }
  put stashed s = record s { strm = s.strm ++ c.strerror s.errno }

  unfoldable pub put_all : ℕ → List Part → LogStream × World → LogStream × World
  put_all i [] r = r
  put_all i (x ∷ xs) (s, w) = put_all (i + 1) xs (put x s, disturb i w)

  abbrev time_str : Bytes
  time_str = elim c.strftime [ none ↦ b'u' ∷ b'n' ∷ b'd' ∷ b'e' ∷ b'f' ∷ [] | some t ↦ t ]

  -- the line that `fprintf` is given
  unfoldable pub line_of : Severity → Bytes → ℕ → Bytes → Bytes
  line_of severity file line msg =
      b'['
      ∷ (time_str
          ++ (b' '
              ∷ (str severity
                  ++ (b' '
                      ∷ (file
                          ++ (b':' ∷ (c.decimal line ++ (b']' ∷ b' ' ∷ (msg ++ b'\n' ∷ [])))))))))

  -- `Flush`
  unfoldable pub flush : LogStream × World → World
  flush (s, w) =
      let w = disturb 0 w in
      let w = record w { stderr = w.stderr ++ line_of s.severity s.file s.line s.strm ∷ [] } in
      record w { errno = s.errno }

  -- `LOG(severity) << …` in a build with the least level `min`
  unfoldable pub log :
      (min : Severity) → Severity → (file : Bytes) → (line : ℕ) → List Part → World → Logged
  log min severity file line parts w =
      if ltb (rank severity) (rank min)
      then goes_on w
      else destroy_stream severity (flush (put_all 1 parts (open_stream file line severity w, w)))
