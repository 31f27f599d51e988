-- ===== src/Session/Stopping.antt =====
-- How the loop of run_server in src/session/main.cpp ends, and what it has closed by then.
use finn_os.Base.{
  ℕ, ◌+◌, ◌≡◌, ◌≢◌, refl, ap, ◌∙◌, true, false, some, List, [], ◌∷◌, ◌++◌, arith, append-nil,
}
use finn_os.Text.Raw.{codes, equal, after_prefix}
use finn_os.Wire.{read_line, write_all}
use finn_os.Session.Environment.{System}
use finn_os.Session.Broker.{refuse, handle_launch, handle_request}
use finn_os.Session.Server.{
  Connection, Event, connection, signal, Server, is_refused, serve, accept, turn, run_loop,
}

-- Every accepted connection is closed again, served or refused, and a connection from another
-- user changes nothing else.
record Balanced (server : Server) : Type 0 where
  balance : server.closed ≡ server.accepted

turn-Balanced : (event : Event) (server : Server) → Balanced server → Balanced (turn server event)
unfolding turn accept serve
turn-Balanced signal server b = ground arith
turn-Balanced _ server b = ground arith

-- However the loop goes, it has closed as many connections as it accepted, refused ones included,
-- when that was so before.
run_loop_closes :
    (events : List Event) (server : Server)
    → server.closed ≡ server.accepted
    → (run_loop server events).closed ≡ (run_loop server events).accepted
unfolding run_loop
run_loop_closes [] server b = b
run_loop_closes (event ∷ events) server b = ground (
  arith,
  run_loop_closes events (turn server event)
      (turn-Balanced event server (record { balance = b })).balance,
)

handle_request_quit : (sys : System) → handle_request sys (codes "QUIT") ≡ refuse (codes "OK\n")
unfolding handle_request handle_launch equal after_prefix
handle_request_quit sys = refl

abbrev pub quit : Server → Connection → Server
quit server c = record server {
  running = false;
  accepted = server.accepted + 1;
  closed = server.closed + 1;
  replies = server.replies ++ ((write_all (codes "OK\n") c.writes).sent ∷ []);
}

turn-quit :
    (c : Connection) (server : Server)
    → is_refused c ≡ false
    → (read_line c.reads).0 ≡ some (codes "QUIT")
    → turn server (connection c) ≡ quit server c
unfolding turn accept serve equal
turn-quit c server f q =
    rw (f, turn)
      (rw q (rw (handle_request_quit c.system) (ground (arith, append-nil server.launches))))

run_loop_stopped :
    (events : List Event) (server : Server)
    → server.running ≡ false
    → run_loop server events ≡ server
unfolding run_loop
run_loop_stopped [] server h = refl
run_loop_stopped (event ∷ events) server h = rw (h, run_loop)

run_loop_running :
    (event : Event) (events : List Event) (server : Server)
    → server.running ≡ true
    → server.broken ≡ false
    → run_loop server (event ∷ events) ≡ run_loop (turn server event) events
unfolding run_loop
run_loop_running event events server r b = ground arith

-- Once QUIT was read from a connection that is not refused, no later event is looked at: the loop
-- ends in the state in which that request was answered with "OK" and its descriptor closed.
run_loop-quit :
    (c : Connection) (events : List Event) (server : Server)
    → server.running ≡ true
    → server.broken ≡ false
    → is_refused c ≡ false
    → (read_line c.reads).0 ≡ some (codes "QUIT")
    → run_loop server (connection c ∷ events) ≡ quit server c
run_loop-quit c events server r b f q =
    run_loop_running (connection c) events server r b
    ∙ ap (λ s. run_loop s events) (turn-quit c server f q)
    ∙ run_loop_stopped events (quit server c) refl

-- A connection whose peer is known to be another user is closed unserved: it is never read, and
-- nothing is written to it, started or stopped for it.
turn_refused :
    (c : Connection) (server : Server) (uid : ℕ)
    → c.peer ≡ some uid
    → uid ≢ c.system.uid
    → turn server (connection c)
      ≡ record server { accepted = server.accepted + 1; closed = server.closed + 1 }
unfolding turn accept is_refused
turn_refused c server uid e n = ground arith
