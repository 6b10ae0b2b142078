-- ===== src/Tests/Resolutions.antt =====
-- The resolver of src/dns.cc for one host_port that two clients ask for.
use hcproxy.Common.{◌%◌, ◌≡◌, refl, some, List, [], ◌∷◌, arith, ok}
use hcproxy.Dns.{
  CacheData, Options, use_entry, fresh, react_cached, resolve, start, rotate, store, hand_out,
  use_each, deliver,
}
use hcproxy.Dns.Rotation.{rotate-mod}
use hcproxy.Dns.Once.{
  Move, ask, begin, found, again, World, waiting, runs, step, unused, Once, runs-Once,
}

abbrev options : Options
options = record {
  dns_cache_ttl = 300;
  dns_cache_refresh_period = 75;
  dns_cache_refresh_duration = 3600;
}

rotate-mod_example : rotate 100 3 0 20 0 ≡ ok (20 % 3, 0)
rotate-mod_example = rotate-mod 100 3 20 (omega arith) (omega arith)

-- Two clients ask before the address is known, and one afterwards.
abbrev moves : List Move
moves =
    ask 1000 1
    ∷ ask 1001 2
    ∷ begin 1002
    ∷ found 9 1003 (some (7 ∷ 8 ∷ []))
    ∷ ask 1004 3
    ∷ again
    ∷ []

abbrev last_entry : CacheData
last_entry = record {
  callbacks = [];
  addr = some (record { addrs = 7 ∷ 8 ∷ []; at = 1 });
  used_at = 1004;
  resolved_at = 1003;
  successfully_resolved_at = 1003;
  use_count = 3;
}

abbrev last_world : World
last_world = record {
  entry = some last_entry;
  phase = waiting;
  asked = 3 ∷ 2 ∷ 1 ∷ [];
  called = 3 ∷ 1 ∷ 2 ∷ [];
}

runs_moves : runs options moves unused ≡ some last_world
unfolding step resolve fresh react_cached start store rotate deliver hand_out use_each use_entry
runs_moves = refl

runs-Once_example : Once last_world
runs-Once_example = runs-Once options moves last_world runs_moves
