-- ===== src/Tests/Requests.antt =====
-- Runs of src/session/main.cpp and src/session/client.cpp.
use finn_os.Base.{
  false, true, ℕ, ◌≡◌, ◌≢◌, refl, sym, ◌⊎◌, ◌↔◌, zero, suc, true, Option, none, some, List, [], ◌∷◌,
  ◌++◌, arith, map, length, All, if◌then◌else◌,
}
use finn_os.Text.Raw.{Bytes, codes, equal, after_prefix, Without}
use finn_os.Text.Split.{cut, c_str}
use finn_os.Text.Trim.{trim, trim_front, trim_back, is_space}
use finn_os.Text.Lines.{lines}
use finn_os.Registry.{
  App, find, launchable, load, load_lines, load_line, add_entry, split_fields, parse_source,
  skipped, mark_from, mark_installed, mark_lines, mark_id,
}
use finn_os.Registry.Invariant.{IsCatalogue}
use finn_os.Wire.{ReadOutcome, byte, interrupted, WriteOutcome, wrote, write_all, read_line}
use finn_os.Wire.Reading.{Delivers, nothing, next, again, read_line-Delivers}
use finn_os.Wire.Writing.{write_all_lem}
use finn_os.Session.Environment.{System, Launch, process, catalogue_path, installed_path}
use finn_os.Session.Broker.{
  handle_request, handle_launch, launch_request, launch_reply, launch_found, launch_app, spawn_app,
  launch_env, list_reply,
}
use finn_os.Session.Client.{Peer, descriptor, ok, err, talk_list, list, launch}
use finn_os.Session.Socket.{Place, FileKind, parent_mode, prepare_socket, prepare_socket_lem}
use finn_os.Session.Server.{Connection, Event, connection, idle, started, run_loop}
use finn_os.Session.Protocol.Listing.{talk_list-app_lines, talk_list_overlong}
use finn_os.Session.Protocol.Descriptors.{list-launch_closed, settled}
use finn_os.Session.Protocol.Row.{view}
use finn_os.Session.Launching.{Authorised, Requested, handle_request-Authorised, run_loop-launches}
use finn_os.Registry.Fields.{IsField}
use finn_os.Tests.Files.{field, disk, editor, fox, sample-IsCatalogue}

abbrev sent : Bytes → List ReadOutcome
sent [] = []
sent (c ∷ cs) = byte c ∷ sent cs

sent-Delivers : (text : Bytes) → Delivers text (sent text) []
sent-Delivers [] = nothing
sent-Delivers (c ∷ cs) = next (sent-Delivers cs)

abbrev apps : List App
apps = editor ∷ fox ∷ []

abbrev peer_with : Bytes → Peer
peer_with text = record {
  socket = descriptor 5;
  connect_error = none;
  writes = wrote 4 ∷ WriteOutcome.interrupted ∷ wrote 5 ∷ [];
  reads = interrupted ∷ sent text;
}

talk_list-app_lines_example : talk_list (peer_with (list_reply apps)) ≡ ok (map view apps)
unfolding write_all
talk_list-app_lines_example =
    talk_list-app_lines apps (peer_with (list_reply apps)) [] sample-IsCatalogue (omega arith)
      (omega arith, (omega arith, tt)) refl (again (sent-Delivers (list_reply apps)))

abbrev pub sys : System
sys = record {
  files = disk;
  getenv = λ name.
      if equal name (codes "FINN_APPS")
      then some (codes "/apps")
      else if equal name (codes "FINN_INSTALLED")
      then some (codes "/list")
      else if equal name (codes "XDG_RUNTIME_DIR")
      then some (codes "/run/user")
      else none;
  executable = λ path. equal path (codes "/bin/ed");
  spawn = λ launch. process 41;
  strerror = λ n. codes "error";
  uid = 7;
}

abbrev request : Bytes
request = codes "APP.LAUNCH ed"

abbrev started_editor : Launch
started_editor = record {
  program = codes "/bin/ed";
  argv = codes "/bin/ed" ∷ [];
  envp = launch_env sys (codes "/run/user");
}

launches-editor : (handle_request sys request).launched ≡ some started_editor
unfolding handle_request handle_launch launch_request launch_reply launch_found launch_app spawn_app
    after_prefix cut c_str equal catalogue_path installed_path find launchable load load_lines
    load_line add_entry split_fields parse_source skipped mark_from mark_installed mark_lines
    mark_id trim trim_front trim_back is_space lines
launches-editor = refl

handle_request-Authorised_example : Authorised sys request started_editor
handle_request-Authorised_example =
    handle_request-Authorised sys request started_editor launches-editor

abbrev client_of : Option ℕ → Bytes → Connection
client_of peer text = record {
  peer = peer;
  reads = sent text;
  writes = wrote 100 ∷ [];
  system = sys;
}

abbrev events : List Event
events =
    idle
    ∷ connection (client_of (some 8) (codes "QUIT\n"))
    ∷ connection (client_of (some 7) (codes "APP.LAUNCH ed\n"))
    ∷ []

run_loop-launches_example : All (Requested events) (run_loop started events).launches
run_loop-launches_example = run_loop-launches events

abbrev quitting : Connection
quitting = client_of none (codes "QUIT\n")

read_line-Delivers_example :
    (mid : List ReadOutcome) × (read_line (interrupted ∷ sent (codes "OK 2\nmore"))
      ≡ (some (codes "OK 2"), mid))
    × Delivers (codes "more") mid []
read_line-Delivers_example =
    read_line-Delivers (codes "OK 2") (codes "more") (interrupted ∷ sent (codes "OK 2\nmore")) []
      (again (sent-Delivers (codes "OK 2\nmore"))) (ground arith) (omega arith)

-- A line of `n` times the letter a.
abbrev letters : ℕ → Bytes
letters zero = []
letters (suc n) = b'a' ∷ letters n

length-letters : (n : ℕ) → length (letters n) ≡ n
length-letters zero = refl
length-letters (suc n) = omega (arith, length-letters n)

letters-Without : (c : ℕ) → c ≢ b'a' → (n : ℕ) → Without c (letters n)
letters-Without c h zero = tt
letters-Without c h (suc n) = (λ p. h (sym p), letters-Without c h n)

write_all_lem_example :
    (unsent : Bytes) × (codes "QUIT\n" ≡ (write_all (codes "QUIT\n") (wrote 2 ∷ [])).sent ++ unsent)
    × (((write_all (codes "QUIT\n") (wrote 2 ∷ [])).done ≡ true) ↔ (unsent ≡ []))
write_all_lem_example = write_all_lem (codes "QUIT\n") (wrote 2 ∷ [])

list-launch_closed_example :
    ((list sys (peer_with []) (record { fd = some 3; closed = [] })).0
      ≡ settled sys (peer_with []) (record { fd = some 3; closed = [] }))
    × ((launch sys (peer_with []) (codes "ed") (record { fd = some 3; closed = [] })).0
        ≡ settled sys (peer_with []) (record { fd = some 3; closed = [] }))
list-launch_closed_example =
    list-launch_closed sys (peer_with []) (codes "ed") (record { fd = some 3; closed = [] })

abbrev place : Place
place = record {
  path = codes "/run/user/finn/session.sock";
  parent = codes "/run/user/finn";
  status = FileKind.socket;
  lstat_error = false;
  create_error = none;
  chmod_error = none;
  unlink_error = none;
  mode = none;
}

prepare_socket_lem_example :
    (((prepare_socket place).1 ≢ none)
      ⊎ ((prepare_socket place).0.status ≡ FileKind.absent)
      ⊎ ((place.lstat_error ≡ true) × ((prepare_socket place).0.status ≡ place.status)))
    × (((prepare_socket place).0.status ≡ place.status)
        ⊎ ((place.status ≡ FileKind.socket) × ((prepare_socket place).0.status ≡ FileKind.absent)))
    × ((place.status ≢ FileKind.other)
        ⊎ (place.lstat_error ≡ true)
        ⊎ ((prepare_socket place).1 ≢ none))
    × (((prepare_socket place).0.mode ≡ place.mode)
        ⊎ ((prepare_socket place).0.mode ≡ some parent_mode))
prepare_socket_lem_example = prepare_socket_lem place

-- An app whose name makes its line one byte too long.
abbrev long : App
long = record editor { name = letters 4091; icon = []; command = [] }

letters-trimmed : (n : ℕ) → trim_back (letters n) ≡ letters n
unfolding trim_back is_space
letters-trimmed zero = refl
letters-trimmed (suc zero) = refl
letters-trimmed (suc (suc n)) = rw (letters-trimmed (suc n)) refl

letters-IsField : (n : ℕ) → IsField (letters n)
unfolding trim trim_front is_space
letters-IsField zero = field [] tt tt refl
letters-IsField (suc n) =
    field (letters (suc n)) (letters-Without b'|' (omega arith) (suc n))
      (letters-Without b'\n' (omega arith) (suc n)) (letters-trimmed (suc n))

long-IsCatalogue : IsCatalogue (long ∷ fox ∷ [])
unfolding find equal
long-IsCatalogue = record {
  entries = (
    record {
      id_ne_nil = ground arith;
      id_field = sample-IsCatalogue.entries.0.id_field;
      name_field = letters-IsField 4091;
      icon_field = letters-IsField 0;
      command_field = letters-IsField 0;
      note_field = letters-IsField 0;
      fits = omega (arith, length-letters 4091);
    },
    sample-IsCatalogue.entries.1,
  );
  distinct = (refl, (refl, tt));
}

talk_list_overlong_example :
    talk_list (peer_with (list_reply (long ∷ fox ∷ []))) ≡ err (codes "APP.LIST ended early")
unfolding write_all
talk_list_overlong_example =
    talk_list_overlong [] (fox ∷ []) long (peer_with (list_reply (long ∷ fox ∷ []))) []
      long-IsCatalogue (omega arith) tt (omega (arith, length-letters 4091)) refl
      (again (sent-Delivers (list_reply (long ∷ fox ∷ []))))
