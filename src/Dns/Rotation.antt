-- ===== src/Dns/Rotation.antt =====
-- The loop of src/dns.cc that winds a new ring of addresses on by the use count.
use hcproxy.Common.{
  ℕ, zero, suc, ◌+◌, ◌-◌, ◌%◌, ◌*◌, ◌≤◌, ◌<◌, ◌≡◌, ap, sym, ◌∙◌, arith, ok, lt-cases, inl, inr,
  ◌==◌, false,
}
use native.Mathlib.Nat.{mod-lt, mod-eq_of_lt, mod-eq-sub-mod}
use hcproxy.Dns.{rotate, next_at}

next_at-inner : (size at : ℕ) → at + 1 < size → next_at size at ≡ at + 1
next_at-inner size at h = ground arith

next_at-last : (at : ℕ) → next_at (at + 1) at ≡ 0
next_at-last at = ground arith

zero_add : (n : ℕ) → 0 + n ≡ n
zero_add n = omega arith

-- Without a turn over the end of the ring.
rotate-short :
    (fuel size i use_count at : ℕ)
    → use_count < fuel
    → at + use_count < size
    → rotate fuel size i use_count at ≡ ok (at + use_count, 0)
unfolding rotate
rotate-short zero size i use_count at f s = absurd (omega arith)
rotate-short (suc fuel) size i zero at f s = ap (λ x. ok (x, 0)) (omega arith)
rotate-short (suc fuel) size i (suc n) at f s =
    let inner = next_at-inner size at (omega arith) in
    let on : (at + 1 == 0) ≡ false = ground arith in
    rw (inner, on)
      (rotate-short fuel size (i + 1) n (at + 1) (omega arith) (omega arith)
        ∙ ap (λ x. ok (x, 0)) (omega arith))

-- With `left + 1` steps to the end of the ring, and a use count that reaches it.
rotate-long :
    (fuel left size use_count at : ℕ)
    → size ≡ at + left + 1
    → size + left + 1 < fuel
    → left + 1 ≤ use_count
    → rotate fuel size at use_count at ≡ ok ((use_count - (left + 1)) % size, 0)
unfolding rotate
rotate-long zero left size use_count at e f u = absurd (omega arith)
rotate-long (suc fuel) left size zero at e f u = absurd (omega arith)
rotate-long (suc fuel) zero size (suc n) at e f u =
    let last : next_at size at ≡ 0 = ground arith in
    let whole : at + 1 ≡ size = omega arith in
    let small = mod-lt n {m = size} (omega arith) in
    let none_left : 0 + n % size ≡ n % size = omega arith in
    let same : n ≡ suc n - (0 + 1) = omega arith in
    rw (last, whole)
      (rotate-short fuel size size (n % size) 0 (omega arith) (omega arith)
        ∙ ap (λ x. ok (x, 0)) (none_left ∙ ap (λ x. x % size) same))
rotate-long (suc fuel) (suc left) size (suc n) at e f u =
    let inner = next_at-inner size at (omega arith) in
    let on : (at + 1 == 0) ≡ false = ground arith in
    rw (inner, on)
      (rotate-long fuel left size n (at + 1) (omega arith) (omega arith) (omega arith)
        ∙ ap (λ x. ok (x % size, 0)) (omega arith))

-- However often the addresses were used, the loop ends within two turns of the ring. It leaves the
-- new ring at the place that the uses so far lead to from its start, and the use count at 0.
pub rotate-mod :
    (fuel size use_count : ℕ)
    → 0 < size
    → 2 * size < fuel
    → rotate fuel size 0 use_count 0 ≡ ok (use_count % size, 0)
rotate-mod fuel size use_count pos f = elim (lt-cases use_count size) [
  | inl few ↦
      rotate-short fuel size 0 use_count 0 (omega arith) (omega arith)
      ∙ ap (λ x. ok (x, 0)) (zero_add use_count ∙ sym (mod-eq_of_lt few))
  | inr many ↦
      rotate-long fuel (size - 1) size use_count 0 (omega arith) (omega arith) (omega arith)
      ∙ ap (λ x. ok (x, 0))
          (ap (λ x. (use_count - x) % size) (omega arith) ∙ sym (mod-eq-sub-mod many))
]
