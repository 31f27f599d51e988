-- ===== src/Session/Protocol/Descriptors.antt =====
-- What the client (src/session/client.cpp) does with descriptors.
use finn_os.Base.{
  ℕ, ◌≡◌, Option, none, some, List, [], ◌∷◌, ◌++◌, append-nil, append_assoc, arith, leb, length,
  if◌then◌else◌, ◌∙◌, zero, suc, refl, ap, inl, inr, Bool-cases, Option-cases, ltb, ◌&&◌, ◌||◌,
}
use finn_os.Text.Raw.{Bytes, codes, after_prefix}
use finn_os.Text.Split.{split}
use finn_os.Text.Decimal.{Scan, scan_int}
use finn_os.Wire.{ReadOutcome, read_line, write_all}
use finn_os.Session.Environment.{System, session_socket_path}
use finn_os.Session.Client.{
  SessionClient, Peer, Socket, descriptor, no_socket, sun_path_size, close, connect, list, launch,
  SessionApp, and_app, Result, err, list_apps, list_count, list_header, send_list, send_launch,
  launch_reply_of, connected, count_limit, read_apps, read_count, read_header, talk_list, with_app,
}

abbrev held : Option ℕ → List ℕ
held none = []
held (some fd) = fd ∷ []

abbrev handed_out : Socket → List ℕ
handed_out (descriptor fd) = fd ∷ []
handed_out (no_socket error) = []

-- The descriptors that a request opens: none when the path is too long for an address.
abbrev pub opened : System → Peer → List ℕ
opened sys peer =
    if leb sun_path_size (length (session_socket_path sys)) then [] else handed_out peer.socket

abbrev pub settled : System → Peer → SessionClient → SessionClient
settled sys peer client = record {
  fd = none;
  closed = client.closed ++ (held client.fd ++ opened sys peer);
}

-- Each path of the listing closes what it was given, and has the result of `talk_list`.

list_apps_lem :
    (count : ℕ) (reads : List ReadOutcome) (client : SessionClient)
    → list_apps count reads client ≡ (close client, read_apps count reads)
unfolding list_apps read_apps
list_apps_lem zero reads client = refl
list_apps_lem (suc count) reads client =
    read (read_line reads).0 (list_apps_lem count (read_line reads).1 client)
  where
    read :
        (line : Option Bytes)
        → list_apps count (read_line reads).1 client
          ≡ (close client, read_apps count (read_line reads).1)
        → elim line as (λ _. SessionClient × Result (List SessionApp)) [
          | none ↦ (close client, err (codes "APP.LIST ended early"))
          | some text ↦ and_app (split text b'|') (list_apps count (read_line reads).1 client)
        ]
          ≡ (
            close client,
            elim line as (λ _. Result (List SessionApp)) [
              | none ↦ err (codes "APP.LIST ended early")
              | some text ↦ with_app (split text b'|') (read_apps count (read_line reads).1)
            ],
          )
    read none rest = refl
    read (some text) rest = ap (and_app (split text b'|')) rest

list_count_lem :
    (scan : Scan) (reads : List ReadOutcome) (client : SessionClient)
    → list_count scan reads client ≡ (close client, read_count scan reads)
list_count_lem Scan.no_match reads client = refl
list_count_lem (Scan.scanned negative count) reads client =
    elim (Bool-cases ((negative && ltb 0 count) || ltb count_limit count)) [
      | inl e ↦ rw e refl
      | inr e ↦ rw e (list_apps_lem count reads client)
    ]

list_header_lem :
    (line : Option Bytes) (reads : List ReadOutcome) (client : SessionClient)
    → list_header line reads client ≡ (close client, read_header line reads)
unfolding after_prefix close
list_header_lem none reads client = refl
list_header_lem (some line) reads client =
    elim (Option-cases (after_prefix (codes "OK count=") line)) [
      | inl e ↦ rw e refl
      | inr (count, e) ↦ rw e (list_count_lem (scan_int count) reads client)
    ]

pub send_list_lem :
    (peer : Peer) (client : SessionClient) → send_list peer client ≡ (close client, talk_list peer)
unfolding send_list talk_list
send_list_lem peer client = elim (Bool-cases (write_all (codes "APP.LIST\n") peer.writes).done) [
  | inl e ↦ rw e (list_header_lem (read_line peer.reads).0 (read_line peer.reads).1 client)
  | inr e ↦ rw e refl
]

send_launch_closed :
    (peer : Peer) (id : Bytes) (client : SessionClient)
    → (send_launch peer id client).0 ≡ close client
unfolding send_launch
send_launch_closed peer id client =
    elim (Bool-cases (write_all (codes "APP.LAUNCH " ++ (id ++ codes "\n")) peer.writes).done) [
      | inl e ↦ rw e (answered (read_line peer.reads).0)
      | inr e ↦ rw e refl
    ]
  where
    answered : (line : Option Bytes) → (launch_reply_of line client).0 ≡ close client
    answered none = refl
    answered (some line) = refl

-- A request closes what `connect` leaves open, and `connect` what it cannot use.

ended : SessionClient × Option Bytes → SessionClient
ended (client, none) = close client
ended (client, some text) = client

connected_lem :
    {A : Type 0} (r : SessionClient × Option Bytes)
    (next : SessionClient → SessionClient × Result A)
    → ((c : SessionClient) → (next c).0 ≡ close c)
    → (connected r next).0 ≡ ended r
unfolding ended
connected_lem (client, none) next h = h client
connected_lem (client, some text) next h = refl

ended-connect :
    (sys : System) (peer : Peer) (client : SessionClient)
    → ended (connect sys peer (close client)) ≡ settled sys peer client
unfolding ended connect close
ended-connect sys peer client =
    ground (
      arith,
      append-nil client.closed,
      append_assoc client.closed (held client.fd) (opened sys peer),
    )

-- `list` and `launch`, whatever the system answers to their calls, leave the client without a descriptor, having closed once
-- the one it held, and once the one it opened, and no other.
pub list-launch_closed :
    (sys : System) (peer : Peer) (id : Bytes) (client : SessionClient)
    → ((list sys peer client).0 ≡ settled sys peer client)
      × ((launch sys peer id client).0 ≡ settled sys peer client)
unfolding list launch
list-launch_closed sys peer id client = (
  connected_lem (connect sys peer (close client)) (send_list peer)
        (λ c. ap (λ r. r.0) (send_list_lem peer c))
      ∙ ended-connect sys peer client,
  connected_lem (connect sys peer (close client)) (send_launch peer id) (send_launch_closed peer id)
      ∙ ended-connect sys peer client,
)
