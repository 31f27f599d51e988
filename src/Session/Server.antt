-- ===== src/Session/Server.antt =====
-- The loop of `run_server` in src/session/main.cpp, one event for each turn.
use finn_os.Base.{
  ℕ, Bool, true, false, not, ◌&&◌, Option, none, some, List, [], ◌∷◌, ◌++◌, ◌==◌, ◌+◌,
  if◌then◌else◌,
}
use finn_os.Text.Raw.{Bytes, codes, equal}
use finn_os.Wire.{ReadOutcome, WriteOutcome, read_line, write_all}
use finn_os.Session.Environment.{System, Launch}
use finn_os.Session.Broker.{Answer, handle_request}

-- A connection: the peer's user by `SO_PEERCRED` (`none` when `getsockopt` fails), what its
-- descriptor answers, and what the system answers meanwhile.
pub record Connection : Type 0 where
  pub peer : Option ℕ
  pub reads : List ReadOutcome
  pub writes : List WriteOutcome
  pub system : System

-- What a turn of the loop meets: a signal (SIGINT, SIGTERM) that ends `poll`, the failures of
-- `poll` and `accept4`, a timeout, or a connection.
pub data Event : Type 0 where
  signal poll_interrupted poll_failed idle accept_interrupted accept_failed : Event
  connection : Connection → Event

pub record Server : Type 0 where
  pub running : Bool  -- `g_running != 0`
  pub broken : Bool  -- left by `break`
  pub accepted : ℕ
  pub closed : ℕ
  pub replies : List Bytes  -- what was written to the served connections
  pub launches : List Launch

abbrev pub started : Server
started = record {
  running = true;
  broken = false;
  accepted = 0;
  closed = 0;
  replies = [];
  launches = [];
}

-- The peer is refused only when its user is known to be another one.
unfoldable pub is_refused : Connection → Bool
is_refused c = elim c.peer [ none ↦ false | some uid ↦ not (uid == c.system.uid) ]

abbrev launches_of : Option Launch → List Launch
launches_of none = []
launches_of (some launch) = launch ∷ []

abbrev respond : Server → Connection → Bytes → Answer → Server
respond server c request answer = record server {
  running = server.running && not (equal request (codes "QUIT"));
  replies = server.replies ++ ((write_all answer.reply c.writes).sent ∷ []);
  launches = server.launches ++ launches_of answer.launched;
}

-- The request that was read, if any, is handled.
unfoldable pub serve : Server → Connection → Option Bytes → Server
serve server c none = server
serve server c (some request) = respond server c request (handle_request c.system request)

unfoldable pub accept : Server → Connection → Server
unfolding serve is_refused
accept server c =
    let opened = record server { accepted = server.accepted + 1 } in
    let served = if is_refused c then opened else serve opened c (read_line c.reads).0 in
    record served { closed = served.closed + 1 }

unfoldable pub turn : Server → Event → Server
unfolding accept
turn server signal = record server { running = false }
turn server poll_interrupted = server
turn server poll_failed = record server { broken = true }
turn server idle = server
turn server accept_interrupted = server
turn server accept_failed = record server { broken = true }
turn server (connection c) = accept server c

-- The loop, over the events to come; it looks at them only while it runs.
unfoldable pub run_loop : Server → List Event → Server
run_loop server [] = server
run_loop server (event ∷ events) =
    let rest = run_loop (turn server event) events in
    if server.running && not server.broken then rest else server
