-- ===== src/Tests/Accepts.antt =====
-- `Accept` of src/acceptor.cc that runs out of descriptors twice before there is a connection. Numbers
-- are printed as one byte, and every call of the C library disturbs `errno`.
use hcproxy.Common.{◌+◌, ◌≡◌, refl, true, none, some, [], ◌∷◌, ok}
use hcproxy.Logging.{info, error, Library, World}
use hcproxy.Logging.Statement.{with_line}
use hcproxy.Addr.{SockAddr, Printing}
use hcproxy.Acceptor.{
  accepted, failed, SocketCalls, file_name, connected_parts, failed_parts, accept,
}
use hcproxy.Acceptor.First.{accept-First}

abbrev library : Library
library = record {
  strftime = none;
  decimal = λ n. n ∷ [];
  strerror = λ e. e ∷ [];
  leaves = λ i e. e + i + 1;
}

abbrev printing : Printing
printing = record { inet_ntoa = λ ip. ip ∷ []; ntohs = λ n. n; decimal = λ n. n ∷ [] }

abbrev peer : SockAddr
peer = record { family = 2; ip = 9; port = 80 }

abbrev calls : SocketCalls
calls = record {
  getaddrinfo = λ host port. some peer;
  socket = λ family. some 3;
  setsockopt = λ fd level optname. true;
  bind = λ fd addr. true;
  listen = λ fd backlog. true;
}

abbrev start : World
start = record { errno = 0; stderr = [] }

accept-First_example :
    accept calls library printing info
      (failed 24 ∷ failed 23 ∷ accepted 7 16 peer ∷ failed 5 ∷ [])
      start
    ≡ ok (
      7,
      with_line library info file_name 74 (connected_parts printing 7 peer) (
          with_line library error file_name 78 failed_parts
            (record (with_line library error file_name 78 failed_parts
              (record start { errno = 24 })) { errno = 23 })),
    )
accept-First_example =
    accept-First calls library printing (24 ∷ 23 ∷ []) (accepted 7 16 peer) (failed 5 ∷ []) start
      (refl, (refl, tt)) tt
