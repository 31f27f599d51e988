-- ===== src/Session/Broker.antt =====
-- The requests that the broker answers: src/session/main.cpp from `sanitise` to `handle_request`.
use finn_os.Base.{
  ℕ, not, ◌||◌, Option, none, some, List, [], ◌∷◌, ◌++◌, map, ◌==◌, length, is_empty, is_some,
  if◌then◌else◌,
}
use finn_os.Text.Raw.{Bytes, codes, equal, after_prefix}
use finn_os.Text.Split.{cut, c_str}
use finn_os.Text.Decimal.{to_string}
use finn_os.Registry.{App, load, find, launchable}
use finn_os.Session.Environment.{
  System, Launch, Spawned, catalogue_path, installed_path, wayland_path, nonempty,
}

abbrev pub sanitise_byte : ℕ → ℕ
sanitise_byte c = if c == b'|' || c == b'\n' || c == b'\r' then b' ' else c

unfoldable pub sanitise : Bytes → Bytes
sanitise = map sanitise_byte

-- The line of one app in the reply to APP.LIST, with its line feed.
unfoldable pub app_line : App → Bytes
app_line app =
    app.id
    ++ (b'|'
        ∷ ((if app.installed then codes "1" else codes "0")
            ++ (b'|' ∷ (sanitise app.name ++ (b'|' ∷ (sanitise app.icon ++ codes "\n"))))))

unfoldable pub app_lines : List App → Bytes
app_lines [] = []
app_lines (app ∷ apps) = app_line app ++ app_lines apps

abbrev pub list_reply : List App → Bytes
list_reply apps = codes "OK count=" ++ (to_string (length apps) ++ (b'\n' ∷ app_lines apps))

unfoldable pub app_list_reply : System → Bytes
app_list_reply sys = elim (load sys.files (catalogue_path sys) (installed_path sys)) [
  | none ↦ codes "ERR catalogue unavailable\n"
  | some registry ↦ list_reply registry
]

-- A variable that is passed on when it is set and not empty.
abbrev pub passed_on : System → Bytes → List Bytes
passed_on sys name = elim (nonempty (sys.getenv name)) [
  | none ↦ []
  | some value ↦ (name ++ (b'=' ∷ value)) ∷ []
]

-- The environment block of a launched app.
unfoldable pub launch_env : System → Bytes → List Bytes
launch_env sys runtime =
    (codes "WAYLAND_DISPLAY=" ++ wayland_path)
    ∷ (codes "XDG_RUNTIME_DIR=" ++ runtime)
    ∷ codes "XDG_SESSION_TYPE=wayland"
    ∷ codes "XDG_CURRENT_DESKTOP=FinnOS"
    ∷ codes "PATH=/usr/local/bin:/usr/bin:/bin"
    ∷ codes "FINN_SESSION=1"
    ∷ (passed_on sys (codes "FINN_DARK")
        ++ (passed_on sys (codes "FINN_ICON_DIR")
            ++ (passed_on sys (codes "FINN_FONT") ++ passed_on sys (codes "HOME"))))

-- A reply, with the call of `posix_spawn` that was made for it.
pub record Answer : Type 0 where
  pub reply : Bytes
  pub launched : Option Launch

abbrev pub refuse : Bytes → Answer
refuse reply = record { reply = reply; launched = none }

abbrev spawn_reply : System → Bytes → Spawned → Bytes
spawn_reply sys id (Spawned.process pid) = codes "OK pid=" ++ (to_string pid ++ codes "\n")
spawn_reply sys id (Spawned.refused error) =
    codes "ERR could not start " ++ (id ++ (codes ": " ++ (sys.strerror error ++ codes "\n")))

unfoldable pub spawn_app : System → App → Bytes → Answer
spawn_app sys app runtime =
    let launch : Launch = record {
      program = c_str app.command;
      argv = c_str app.command ∷ [];
      envp = launch_env sys runtime;
    } in
    record { reply = spawn_reply sys app.id (sys.spawn launch); launched = some launch }

-- The checks on the app that was found, in their order.
unfoldable pub launch_app : System → App → Answer
launch_app sys app =
    if not app.installed
    then refuse (codes "ERR not installed\n")
    else if not (launchable app)
    then refuse (codes "ERR not a native launch\n")
    else if not (sys.executable (c_str app.command))
    then refuse (codes "ERR command not executable\n")
    else elim (nonempty (sys.getenv (codes "XDG_RUNTIME_DIR"))) [
      | none ↦ refuse (codes "ERR XDG_RUNTIME_DIR is unset\n")
      | some runtime ↦ spawn_app sys app runtime
    ]

unfoldable pub launch_found : System → Option App → Answer
launch_found sys none = refuse (codes "ERR unknown app\n")
launch_found sys (some app) = launch_app sys app

unfoldable pub launch_reply : System → Bytes → Answer
launch_reply sys id = elim (load sys.files (catalogue_path sys) (installed_path sys)) [
  | none ↦ refuse (codes "ERR catalogue unavailable\n")
  | some registry ↦ launch_found sys (find id registry)
]

-- The part of the request behind "APP.LAUNCH ".
unfoldable pub launch_request : System → Bytes → Answer
launch_request sys id =
    if is_empty id || is_some (cut b' ' id).1
    then refuse (codes "ERR APP.LAUNCH takes one app id\n")
    else launch_reply sys id

-- The requests behind APP.LIST, by the part that follows "APP.LAUNCH ", if it does.
unfoldable pub handle_launch : System → Bytes → Option Bytes → Answer
handle_launch sys request none =
    if equal request (codes "QUIT")
    then refuse (codes "OK\n")
    else refuse (codes "ERR unknown request\n")
handle_launch sys request (some id) = launch_request sys id

unfoldable pub handle_request : System → Bytes → Answer
handle_request sys request =
    if equal request (codes "PING")
    then refuse (codes "OK finn-session 1\n")
    else if equal request (codes "APP.LIST")
    then refuse (app_list_reply sys)
    else handle_launch sys request (after_prefix (codes "APP.LAUNCH ") request)
