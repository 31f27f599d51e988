-- ===== src/Session/Client.antt =====
-- `SessionClient`: src/session/client.cpp. What the system answers on one connection is a `Peer`.
use finn_os.Base.{
  ℕ, zero, suc, Bool, not, ◌&&◌, ◌||◌, Option, none, some, List, [], ◌∷◌, ◌++◌, ltb, leb, length,
  if◌then◌else◌,
}
use finn_os.Text.Raw.{Bytes, codes, equal, after_prefix}
use finn_os.Text.Split.{split}
use finn_os.Text.Decimal.{Scan, scan_int}
use finn_os.Wire.{ReadOutcome, WriteOutcome, read_line, write_all}
use finn_os.Session.Environment.{System, session_socket_path}

pub record SessionApp : Type 0 where
  pub id : Bytes
  pub name : Bytes
  pub icon : Bytes
  pub installed : Bool

-- `fd_`, where `none` is -1, and every descriptor that `::close` was called on.
pub record SessionClient : Type 0 where
  pub fd : Option ℕ
  pub closed : List ℕ

pub data Socket : Type 0 where
  descriptor : ℕ → Socket
  no_socket : ℕ → Socket

-- The answers to `socket`, `connect` (with its `errno`), `write` and `read`.
pub record Peer : Type 0 where
  pub socket : Socket
  pub connect_error : Option ℕ
  pub writes : List WriteOutcome
  pub reads : List ReadOutcome

pub data Result {ℓ} (A : Type ℓ) : Type ℓ where
  ok : A → Result A
  err : Bytes → Result A

-- `sizeof(sockaddr_un::sun_path)` on Linux.
abbrev pub sun_path_size : ℕ
sun_path_size = 108

unfoldable pub close : SessionClient → SessionClient
close client = elim client.fd [
  | none ↦ client
  | some fd ↦ record { fd = none; closed = client.closed ++ (fd ∷ []) }
]

-- Behind a successful `socket`: the address is connected, or the descriptor closed again.
abbrev connect_to : System → Option ℕ → SessionClient → SessionClient × Option Bytes
connect_to sys none client = (client, none)
connect_to sys (some error) client = (
  close client,
  some (
      codes "cannot reach finn-session at "
      ++ (session_socket_path sys ++ (codes ": " ++ sys.strerror error))),
)

abbrev connect_socket : System → Peer → Socket → SessionClient → SessionClient × Option Bytes
connect_socket sys peer (no_socket error) client =
    (client, some (codes "cannot create socket: " ++ sys.strerror error))
connect_socket sys peer (descriptor fd) client =
    connect_to sys peer.connect_error (record client { fd = some fd })

-- `none` when the code returns true, the error's text when it returns false.
unfoldable pub connect : System → Peer → SessionClient → SessionClient × Option Bytes
unfolding close
connect sys peer client =
    if leb sun_path_size (length (session_socket_path sys))
    then (close client, some (codes "session socket path is too long"))
    else connect_socket sys peer peer.socket (close client)

-- The text of an error reply: without its "ERR ".
abbrev pub error_text : Bytes → Bytes
error_text line = elim (after_prefix (codes "ERR ") line) [ some text ↦ text | none ↦ line ]

-- A line of the listing; one with fewer than four fields is passed over.
abbrev pub read_app : List Bytes → List SessionApp → List SessionApp
read_app (id ∷ installed ∷ name ∷ icon ∷ _) apps =
    record { id = id; name = name; icon = icon; installed = equal installed (codes "1") } ∷ apps
read_app _ apps = apps

abbrev pub with_app : List Bytes → Result (List SessionApp) → Result (List SessionApp)
with_app fields (ok apps) = ok (read_app fields apps)
with_app fields (err text) = err text

-- The loop over the announced count.
unfoldable pub read_apps : ℕ → List ReadOutcome → Result (List SessionApp)
read_apps zero reads = ok []
read_apps (suc count) reads =
    let (line, rest) = read_line reads in
    elim line [
      | none ↦ err (codes "APP.LIST ended early")
      | some text ↦ with_app (split text b'|') (read_apps count rest)
    ]

abbrev pub count_limit : ℕ
count_limit = 4096

-- A count below 0 or above 4096 is refused.
abbrev pub read_count : Scan → List ReadOutcome → Result (List SessionApp)
read_count Scan.no_match reads = err (codes "malformed APP.LIST reply")
read_count (Scan.scanned negative count) reads =
    if (negative && ltb 0 count) || ltb count_limit count
    then err (codes "malformed APP.LIST reply")
    else read_apps count reads

abbrev pub read_header : Option Bytes → List ReadOutcome → Result (List SessionApp)
read_header none reads = err (codes "no reply from finn-session")
read_header (some line) reads = elim (after_prefix (codes "OK count=") line) [
  | none ↦ err (error_text line)
  | some count ↦ read_count (scan_int count) reads
]

-- The result of `list` by itself, from the request on.
unfoldable pub talk_list : Peer → Result (List SessionApp)
talk_list peer =
    if not (write_all (codes "APP.LIST\n") peer.writes).done
    then err (codes "cannot send APP.LIST")
    else (let (line, rest) = read_line peer.reads in read_header line rest)

-- The same with the client on every path.

abbrev pub and_app :
    List Bytes → SessionClient × Result (List SessionApp) → SessionClient × Result (List SessionApp)
and_app fields (client, result) = (client, with_app fields result)

unfoldable pub list_apps :
    ℕ → List ReadOutcome → SessionClient → SessionClient × Result (List SessionApp)
unfolding close
list_apps zero reads client = (close client, ok [])
list_apps (suc count) reads client =
    let (line, rest) = read_line reads in
    elim line [
      | none ↦ (close client, err (codes "APP.LIST ended early"))
      | some text ↦ and_app (split text b'|') (list_apps count rest client)
    ]

abbrev pub list_count :
    Scan → List ReadOutcome → SessionClient → SessionClient × Result (List SessionApp)
list_count Scan.no_match reads client = (close client, err (codes "malformed APP.LIST reply"))
list_count (Scan.scanned negative count) reads client =
    if (negative && ltb 0 count) || ltb count_limit count
    then (close client, err (codes "malformed APP.LIST reply"))
    else list_apps count reads client

abbrev pub list_header :
    Option Bytes → List ReadOutcome → SessionClient → SessionClient × Result (List SessionApp)
list_header none reads client = (close client, err (codes "no reply from finn-session"))
list_header (some line) reads client = elim (after_prefix (codes "OK count=") line) [
  | none ↦ (close client, err (error_text line))
  | some count ↦ list_count (scan_int count) reads client
]

unfoldable pub send_list : Peer → SessionClient → SessionClient × Result (List SessionApp)
unfolding close list_apps
send_list peer client =
    if not (write_all (codes "APP.LIST\n") peer.writes).done
    then (close client, err (codes "cannot send APP.LIST"))
    else (let (line, rest) = read_line peer.reads in list_header line rest client)

-- A client that is not connected goes no further.
abbrev pub connected {ℓ} :
    {A : Type ℓ}
    → SessionClient × Option Bytes
    → (SessionClient → SessionClient × Result A)
    → SessionClient × Result A
connected (client, none) next = next client
connected (client, some text) next = (client, err text)

unfoldable pub list : System → Peer → SessionClient → SessionClient × Result (List SessionApp)
unfolding connect send_list
list sys peer client = connected (connect sys peer (close client)) (send_list peer)

-- What the reply says, once the descriptor is closed.
abbrev read_answer : Bytes → Result (Unit {0})
read_answer line = elim (after_prefix (codes "OK") line) [
  | none ↦ err (error_text line)
  | some _ ↦ ok tt
]

abbrev pub launch_reply_of : Option Bytes → SessionClient → SessionClient × Result (Unit {0})
launch_reply_of none client = (close client, err (codes "no reply from finn-session"))
launch_reply_of (some line) client = (close client, read_answer line)

unfoldable pub send_launch : Peer → Bytes → SessionClient → SessionClient × Result (Unit {0})
unfolding close
send_launch peer id client =
    if not (write_all (codes "APP.LAUNCH " ++ (id ++ codes "\n")) peer.writes).done
    then (close client, err (codes "cannot send APP.LAUNCH"))
    else launch_reply_of (read_line peer.reads).0 client

unfoldable pub launch : System → Peer → Bytes → SessionClient → SessionClient × Result (Unit {0})
unfolding connect send_launch
launch sys peer id client = connected (connect sys peer (close client)) (send_launch peer id)
