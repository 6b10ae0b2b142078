-- ===== src/Logging/Statement.antt =====
-- A log statement and `errno` (src/logging.cc).
use hcproxy.Common.{
  ℕ, ◌+◌, ◌≡◌, refl, ap, sym, ◌∙◌, List, [], ◌∷◌, ◌++◌, append_assoc, append-nil, ltb,
  if◌then◌else◌,
}
use hcproxy.Parser.{Bytes}
use hcproxy.Logging.{
  Severity, rank, Part, text, err, stashed, Library, World, LogStream, goes_on, put, put_all,
  line_of, flush, open_stream, destroy_stream, log, disturb,
}

module _ (c : Library) where
  -- what the parts say where `errno` is `e`
  abbrev pub message : ℕ → List Part → Bytes
  message e [] = []
  message e (text t ∷ xs) = t ++ message e xs
  message e (err d ∷ xs) = c.strerror d ++ message e xs
  message e (stashed ∷ xs) = c.strerror e ++ message e xs

  -- the stream and the lines after all parts
  record PutAll (s : LogStream) (w : World) (xs : List Part) (r : LogStream × World) : Type 0 where
    same_errno : r.0.errno ≡ s.errno
    same_place : (r.0.file ≡ s.file) × (r.0.line ≡ s.line) × (r.0.severity ≡ s.severity)
    said : r.0.strm ≡ s.strm ++ message s.errno xs
    lines : r.1.stderr ≡ w.stderr

  put_all-PutAll :
      (i : ℕ) (xs : List Part) (s : LogStream) (w : World) → PutAll s w xs (put_all c i xs (s, w))
  unfolding put_all
  put_all-PutAll i [] s w = record {
    same_errno = refl;
    same_place = (refl, refl, refl);
    said = sym (append-nil s.strm);
    lines = refl;
  }
  put_all-PutAll i (text t ∷ xs) s w =
      let r = put_all-PutAll (i + 1) xs (put c (text t) s) (disturb c i w) in
      record {
        same_errno = r.same_errno;
        same_place = r.same_place;
        said = r.said ∙ append_assoc s.strm t (message s.errno xs);
        lines = r.lines;
      }
  put_all-PutAll i (err e ∷ xs) s w =
      let r = put_all-PutAll (i + 1) xs (put c (err e) s) (disturb c i w) in
      record {
        same_errno = r.same_errno;
        same_place = r.same_place;
        said = r.said ∙ append_assoc s.strm (c.strerror e) (message s.errno xs);
        lines = r.lines;
      }
  put_all-PutAll i (stashed ∷ xs) s w =
      let r = put_all-PutAll (i + 1) xs (put c stashed s) (disturb c i w) in
      record {
        same_errno = r.same_errno;
        same_place = r.same_place;
        said = r.said ∙ append_assoc s.strm (c.strerror s.errno) (message s.errno xs);
        lines = r.lines;
      }

  -- a world with one line more
  abbrev pub with_line : Severity → Bytes → ℕ → List Part → World → World
  with_line severity file line parts w = record w {
    stderr = w.stderr ++ line_of c severity file line (message w.errno parts) ∷ [];
  }

  World-eq : (u v : World) → u.errno ≡ v.errno → u.stderr ≡ v.stderr → u ≡ v
  World-eq u v e d = λ i. record { errno = e i; stderr = d i }

  module _ (min severity : Severity) (file : Bytes) (line : ℕ) (parts : List Part) (w : World) where
    written : LogStream × World
    written = put_all c 1 parts (open_stream c file line severity w, w)

    flushed : flush c written ≡ with_line severity file line parts w
    unfolding flush written
    flushed =
        let r = put_all-PutAll 1 parts (open_stream c file line severity w) w in
        World-eq _ _ r.same_errno (λ i.
          r.lines i
          ++ line_of c (r.same_place.2 i) (r.same_place.0 i) (r.same_place.1 i) (r.said i) ∷ [])

    -- A statement below the least level does nothing. Any other prints one line, in which `Errno()` is
    -- the error before the statement; it leaves `errno` as it was, whatever the calls that print it do
    -- to `errno`, and ends the program exactly at FATAL.
    pub log-says : log c min severity file line parts w ≡ (
        if ltb (rank severity) (rank min)
        then goes_on w
        else destroy_stream severity (with_line severity file line parts w))
    unfolding log written
    log-says =
        ap
          (λ (v : World).
            if ltb (rank severity) (rank min) then goes_on w else destroy_stream severity v)
          flushed
