-- ===== src/Parser/Prefix.antt =====
-- The check of the request's start in `ParseEventHandler::Read` of src/parser.cc, chunk by chunk.
use hcproxy.Common.{
  ℕ, suc, ◌-◌, ◌≡◌, ◌≤◌, refl, min, Bool, true, ◌&&◌, [], ◌∷◌, ◌++◌, arith, length, take, drop,
  ◌==◌, ◌∉◌, ◌↔◌, inl, inr, lt-cases, lt→ltb, not-ltb, sym, ◌∙◌,
}
use mathlib.Core.Path.{ap₂}
use hcproxy.Parser.{Bytes, connect_prefix, equal, prefix_fits}

-- One of the two is the start of the other.
abbrev pub Agrees : Bytes → Bytes → Type 0
Agrees [] cs = Unit {0}
Agrees (p ∷ ps) [] = Unit {0}
Agrees (p ∷ ps) (c ∷ cs) = (p ≡ c) × Agrees ps cs

-- what is left of the first list behind the second
abbrev pub behind : Bytes → Bytes → Bytes
behind ps cs = drop (length cs) ps

Agrees-append : (ps cs ds : Bytes) → Agrees ps cs → Agrees (behind ps cs) ds → Agrees ps (cs ++ ds)
Agrees-append ps [] ds a b = b
Agrees-append [] (c ∷ cs) ds a b = tt
Agrees-append (p ∷ ps) (c ∷ cs) ds a b = (a.0, Agrees-append ps cs ds a.1 b)

pub Agrees-left : (ps cs ds : Bytes) → Agrees ps (cs ++ ds) → Agrees ps cs
Agrees-left [] cs ds a = tt
Agrees-left (p ∷ ps) [] ds a = tt
Agrees-left (p ∷ ps) (c ∷ cs) ds a = (a.0, Agrees-left ps cs ds a.1)

pub Agrees-right : (ps cs ds : Bytes) → Agrees ps (cs ++ ds) → Agrees (behind ps cs) ds
Agrees-right ps [] ds a = a
Agrees-right [] (c ∷ cs) ds a = tt
Agrees-right (p ∷ ps) (c ∷ cs) ds a = Agrees-right ps cs ds a.1

-- The comparison of as many bytes as both have.
abbrev pub starts_alike : Bytes → Bytes → Bool
starts_alike qs ds =
    equal (take (min (length ds) (length qs)) ds) (take (min (length ds) (length qs)) qs)

min-suc : (a b : ℕ) → min (suc a) (suc b) ≡ suc (min a b)
min-suc a b = omega arith

starts_alike_cons :
    (q d : ℕ) (qs ds : Bytes) → starts_alike (q ∷ qs) (d ∷ ds) ≡ (d == q && starts_alike qs ds)
unfolding equal
starts_alike_cons q d qs ds = rw (min-suc (length ds) (length qs))

starts_alike_nil : (ds : Bytes) → starts_alike [] ds ≡ true
unfolding equal
starts_alike_nil ds = let e : min (length ds) 0 ≡ 0 = omega arith in rw e

starts_alike-nil : (qs : Bytes) → starts_alike qs [] ≡ true
unfolding equal
starts_alike-nil qs = let e : min 0 (length qs) ≡ 0 = omega arith in rw e

starts_alike-Agrees : (qs ds : Bytes) → starts_alike qs ds ≡ true → Agrees qs ds
starts_alike-Agrees [] ds h = tt
starts_alike-Agrees (q ∷ qs) [] h = tt
starts_alike-Agrees (q ∷ qs) (d ∷ ds) h =
    ground (arith, starts_alike_cons q d qs ds, starts_alike-Agrees qs ds)

Agrees-starts_alike : (qs ds : Bytes) → Agrees qs ds → starts_alike qs ds ≡ true
Agrees-starts_alike [] ds h = starts_alike_nil ds
Agrees-starts_alike (q ∷ qs) [] h = starts_alike-nil (q ∷ qs)
Agrees-starts_alike (q ∷ qs) (d ∷ ds) h =
    ground (arith, starts_alike_cons q d qs ds, Agrees-starts_alike qs ds)

length-behind : (ps cs : Bytes) → length (behind ps cs) ≡ length ps - length cs
length-behind ps [] = omega arith
length-behind [] (c ∷ cs) = omega arith
length-behind (p ∷ ps) (c ∷ cs) = omega (arith, length-behind ps cs)

behind_nil : (ps cs : Bytes) → length ps ≤ length cs → behind ps cs ≡ []
behind_nil [] [] h = refl
behind_nil (p ∷ ps) [] h = elim h [ ]
behind_nil [] (c ∷ cs) h = refl
behind_nil (p ∷ ps) (c ∷ cs) h = behind_nil ps cs (omega arith)

-- The source's test is this comparison, also where the prefix has been read in full.
prefix_fits-starts_alike :
    (content chunk : Bytes)
    → prefix_fits content chunk ≡ starts_alike (behind connect_prefix content) chunk
unfolding prefix_fits
prefix_fits-starts_alike content chunk = elim (lt-cases (length content) 8) [
  | inl less ↦ rw (lt→ltb _ _ less, length-behind connect_prefix content)
  | inr full ↦
      rw (not-ltb _ _ full, behind_nil connect_prefix content full) (sym (starts_alike_nil chunk))
]

-- The test passes exactly if what has been read, the chunk included, still agrees with the prefix.
pub prefix_fits_iff :
    (content chunk : Bytes)
    → Agrees connect_prefix content
    → (prefix_fits content chunk ≡ true) ↔ Agrees connect_prefix (content ++ chunk)
prefix_fits_iff content chunk a = (
  λ h.
      Agrees-append connect_prefix content chunk a
        (starts_alike-Agrees _ chunk (sym (prefix_fits-starts_alike content chunk) ∙ h)),
  λ b.
      prefix_fits-starts_alike content chunk
      ∙ Agrees-starts_alike _ chunk (Agrees-right connect_prefix content chunk b),
)

-- What agrees with a list and has a byte that is not in it reaches past its end.
pub Agrees-past :
    (ps cs : Bytes) (x : ℕ) (bs : Bytes)
    → Agrees ps (cs ++ x ∷ bs)
    → x ∉ ps
    → (rest : Bytes) × (cs ≡ ps ++ rest)
Agrees-past [] cs x bs a out = (cs, refl)
Agrees-past (p ∷ ps) [] x bs a out = absurd (ground (arith))
Agrees-past (p ∷ ps) (c ∷ cs) x bs a out =
    let (rest, e) = Agrees-past ps cs x bs a.1 (ground arith) in (rest, ap₂ ◌∷◌ (sym a.0) e)

pub Agrees-whole : (ps rest : Bytes) → Agrees ps (ps ++ rest)
Agrees-whole [] rest = tt
Agrees-whole (p ∷ ps) rest = (refl, Agrees-whole ps rest)
