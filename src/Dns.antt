-- ===== src/Dns.antt =====
-- One entry of the cache of src/dns.cc. The circular list of addresses that `ResolveSync` returns is
-- a `Ring`; a pointer into it is a position. A callback is known by a number. What `getaddrinfo`
-- answers and the readings of the clock are arguments. The parts of `ProcessCacheEntry` between two
-- changes of the lock are functions of their own, since `Resolve` may run in between.
pub mod Rotation
pub mod Once
pub mod Lookup
use hcproxy.Common.{
  ℕ, zero, suc, ◌+◌, ◌-◌, ◌%◌, min, max, Bool, true, false, ◌&&◌, Option, none, some, List, [], ◌∷◌,
  Outcome, ok, stuck, ◌>>=◌, ltb, leb, ◌==◌, if◌then◌else◌, length,
}

-- the addresses, and the one that is next
pub record Ring : Type 0 where
  pub addrs : List ℕ
  pub at : ℕ

abbrev pub next_at : ℕ → ℕ → ℕ
next_at size at = if at + 1 == size then 0 else at + 1

-- what `Advance` leaves in its argument
abbrev pub advance : Option Ring → Option Ring
advance none = none
advance (some r) = some (record r { at = next_at (length r.addrs) r.at })

-- `DnsResolver::CacheData`
pub record CacheData : Type 0 where
  pub callbacks : List ℕ
  pub addr : Option Ring
  pub used_at : ℕ
  pub resolved_at : ℕ
  pub successfully_resolved_at : ℕ
  pub use_count : ℕ

-- the part of `DnsResolver::Options` that is about time
pub record Options : Type 0 where
  pub dns_cache_ttl : ℕ
  pub dns_cache_refresh_period : ℕ
  pub dns_cache_refresh_duration : ℕ

-- `CacheData::Use`
unfoldable pub use_entry : (now : ℕ) → CacheData → CacheData
use_entry now c = record c {
  use_count = c.use_count + 1;
  addr = advance c.addr;
  used_at = max c.used_at now;
}

-- the entry that `Resolve` inserts for its callback
unfoldable pub fresh : ℕ → CacheData
fresh cb = record {
  callbacks = cb ∷ [];
  addr = none;
  used_at = 0;
  resolved_at = 0;
  successfully_resolved_at = 0;
  use_count = 0;
}

-- What `Resolve` does beside changing the entry: it schedules `ProcessCacheEntry`, leaves the callback
-- to it, or calls the callback at once.
pub data Reaction : Type 0 where
  schedule : Reaction
  leave : Reaction
  call : Option Ring → Reaction

abbrev append_callback : List ℕ → ℕ → List ℕ
append_callback [] cb = cb ∷ []
append_callback (x ∷ xs) cb = x ∷ append_callback xs cb

-- the rest of `Resolve`, where the entry is there, by its callbacks
unfoldable pub react_cached : Options → (now cb : ℕ) → CacheData → List ℕ → CacheData × Reaction
unfolding use_entry
react_cached o now cb c [] = (
  use_entry now c,
  call (if ltb now (c.successfully_resolved_at + o.dns_cache_ttl) then c.addr else none),
)
react_cached o now cb c (x ∷ xs) = (record c { callbacks = append_callback c.callbacks cb }, leave)

-- `Resolve`, on the entry of its host_port, if there is one
unfoldable pub resolve : Options → (now cb : ℕ) → Option CacheData → CacheData × Reaction
unfolding fresh react_cached
resolve o now cb none = (fresh cb, schedule)
resolve o now cb (some c) = react_cached o now cb c c.callbacks

-- how `ProcessCacheEntry` starts
pub data Start : Type 0 where
  erase look_up ready : Start

abbrev pub is_empty : List ℕ → Bool
is_empty [] = true
is_empty _ = false

unfoldable pub start : Options → (now : ℕ) → CacheData → Start
start o now c =
    if is_empty c.callbacks && leb (c.used_at + o.dns_cache_refresh_duration) now
    then erase
    else if leb (c.resolved_at + o.dns_cache_refresh_period) now
    then look_up
    else ready

-- the loop that winds a new ring on by `use_count`, from the iteration `i` on: the position and
-- `use_count` after it
unfoldable pub rotate : (fuel size i use_count at : ℕ) → Outcome (ℕ × ℕ)
rotate zero size i use_count at = stuck
rotate (suc fuel) size i use_count at =
    let on = next_at size at in
    elim use_count [
      | zero ↦ ok (at, 0)
      | suc n ↦ rotate fuel size (i + 1) (if on == 0 then n % (i + 1) else n) on
    ]

-- what is stored after `ResolveSync` has returned these addresses, or null
unfoldable pub store : (fuel now : ℕ) → Option (List ℕ) → CacheData → Outcome CacheData
unfolding rotate
store fuel now none c = ok (record c { resolved_at = now })
store fuel now (some addrs) c = rotate fuel (length addrs) 0 c.use_count 0 >>= λ (at, use_count).
    ok (record c {
      resolved_at = now;
      successfully_resolved_at = now;
      addr = some (record { addrs = addrs; at = at });
      use_count = use_count;
    })

-- what each callback is called with
unfoldable pub hand_out : List ℕ → Option Ring → List (ℕ × Option Ring)
hand_out [] addr = []
hand_out (cb ∷ cbs) addr = (cb, addr) ∷ hand_out cbs (advance addr)

unfoldable pub use_each : (now : ℕ) → List ℕ → CacheData → CacheData
unfolding use_entry
use_each now [] c = c
use_each now (cb ∷ cbs) c = use_each now cbs (use_entry now c)

-- the calls of the callbacks, and the entry after `std::exchange` and the calls of `Use`
unfoldable pub deliver : (now : ℕ) → CacheData → List (ℕ × Option Ring) × CacheData
unfolding hand_out use_each
deliver now c =
    (hand_out c.callbacks c.addr, use_each now c.callbacks (record c { callbacks = [] }))

-- when `ProcessCacheEntry` is to run again
unfoldable pub next_time : Options → CacheData → ℕ
next_time o c =
    min (c.resolved_at + o.dns_cache_refresh_period) (c.used_at + o.dns_cache_refresh_duration)
