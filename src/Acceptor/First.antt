-- ===== src/Acceptor/First.antt =====
-- `Accept` of src/acceptor.cc, through the errors that it survives.
use hcproxy.Common.{
  ℕ, ◌==◌, ◌&&◌, ◌≡◌, refl, ap, ◌∙◌, true, false, List, [], ◌∷◌, arith, Outcome, ok, pass, check,
  if◌then◌else◌,
}
use hcproxy.Logging.{info, error, Library, World, log}
use hcproxy.Logging.Statement.{with_line, log-says}
use hcproxy.Addr.{SockAddr, af_inet, Printing}
use hcproxy.Acceptor.{
  Answer, accepted, failed, SocketCalls, set_sock_opt, survives, said, file_name, connected_parts,
  failed_parts, accept,
}

abbrev pub all_failed : List ℕ → List Answer → List Answer
all_failed [] next = next
all_failed (e ∷ es) next = failed e ∷ all_failed es next

abbrev pub AllSurvive : List ℕ → Type 0
AllSurvive [] = Unit {0}
AllSurvive (e ∷ es) = (survives e ≡ true) × AllSurvive es

module _ (c : SocketCalls) (lib : Library) (print : Printing) where
  -- what has been logged, and the last error, after some failures
  abbrev pub failures : List ℕ → World → World
  failures [] w = w
  failures (e ∷ es) w =
      failures es (with_line lib error file_name 78 failed_parts (record w { errno = e }))

  failure-said :
      (e : ℕ) (w : World)
      → said (log lib info error file_name 78 failed_parts (record w { errno = e }))
        ≡ ok (with_line lib error file_name 78 failed_parts (record w { errno = e }))
  failure-said e w =
      ap said (log-says lib info error file_name 78 failed_parts (record w { errno = e }))

  accept-failures :
      (es : List ℕ) (next : List Answer) (w : World)
      → AllSurvive es
      → accept c lib print info (all_failed es next) w
        ≡ accept c lib print info next (failures es w)
  unfolding accept
  accept-failures [] next w h = refl
  accept-failures (e ∷ es) next w h =
      rw (failure-said e w, pass h.0) (accept-failures es next _ h.1)

  -- an answer that ends the loop: a connection, or an error that is not survived
  abbrev pub IsLast : Answer → Type 0
  IsLast (accepted conn addrlen addr) = Unit {0}
  IsLast (failed e) = survives e ≡ false

  -- what it ends in
  abbrev pub ending : Answer → World → Outcome (ℕ × World)
  ending (accepted conn addrlen addr) w =
      if (addrlen == 16 && addr.family == af_inet) && c.setsockopt conn 6 1
      then ok (conn, with_line lib info file_name 74 (connected_parts print conn addr) w)
      else Outcome.fatal
  ending (failed e) w = Outcome.fatal

  connected :
      (conn addrlen : ℕ) (addr : SockAddr) (rest : List Answer) (w : World)
      → accept c lib print info (accepted conn addrlen addr ∷ rest) w
        ≡ ending (accepted conn addrlen addr) w
  unfolding accept set_sock_opt
  connected conn addrlen addr rest w =
      rw (log-says lib info info file_name 74 (connected_parts print conn addr) w) (ground arith)

  gives_up :
      (e : ℕ) (rest : List Answer) (w : World)
      → survives e ≡ false
      → accept c lib print info (failed e ∷ rest) w ≡ Outcome.fatal
  unfolding accept
  gives_up e rest w h = rw (failure-said e w, ap check h) refl

  -- `Accept`, with the least level INFO: errors for want of descriptors or memory are logged, each by
  -- its own name, and survived; the first connection is returned with its log line, if it is an IPv4
  -- connection on which TCP_NODELAY can be set; any other error is fatal.
  pub accept-First :
      (es : List ℕ) (next : Answer) (rest : List Answer) (w : World)
      → AllSurvive es
      → IsLast next
      → accept c lib print info (all_failed es (next ∷ rest)) w ≡ ending next (failures es w)
  accept-First es (accepted conn addrlen addr) rest w h last =
      accept-failures es _ w h ∙ connected conn addrlen addr rest (failures es w)
  accept-First es (failed e) rest w h last =
      accept-failures es _ w h ∙ gives_up e rest (failures es w) last
