-- ===== src/Session/Command.antt =====
-- `main`, `client_list` and `client_launch` of src/session/main.cpp: the command finn-session.
use finn_os.Base.{ℕ, Bool, true, false, none, List, [], ◌∷◌, ◌++◌, if◌then◌else◌}
use finn_os.Text.Raw.{Bytes, codes, equal}
use finn_os.Text.Split.{c_str}
use finn_os.Session.Environment.{System}
use finn_os.Session.Client.{SessionApp, SessionClient, Peer, ok, err, list, launch}

-- What the command does: it runs the broker, or it ends with a status and what it printed on the
-- standard output and on the standard error.
pub data Ended : Type 0 where
  serves : Ended
  exits : ℕ → Bytes → Bytes → Ended

abbrev pub unconnected : SessionClient
unconnected = record { fd = none; closed = [] }

abbrev status_text : Bool → Bytes
status_text true = codes "installed"
status_text false = codes "available"

-- `%s` prints a text up to its first byte 0.
unfoldable pub listed_apps : List SessionApp → Bytes
unfolding c_str
listed_apps [] = []
listed_apps (app ∷ apps) =
    c_str app.id
    ++ (b'\t'
        ∷ (status_text app.installed ++ (b'\t' ∷ (c_str app.name ++ (b'\n' ∷ listed_apps apps)))))

abbrev complaint : Bytes → Bytes
complaint message = codes "finn-session: " ++ (c_str message ++ codes "\n")

unfoldable pub client_list : System → Peer → Ended
unfolding listed_apps
client_list sys peer = elim (list sys peer unconnected).1 [
  | ok apps ↦ exits 0 (listed_apps apps) []
  | err message ↦ exits 1 [] (complaint message)
]

unfoldable pub client_launch : System → Peer → Bytes → Ended
client_launch sys peer id = elim (launch sys peer id unconnected).1 [
  | ok _ ↦ exits 0 [] []
  | err message ↦ exits 1 [] (complaint message)
]

abbrev usage : Bytes
usage =
    codes
      "usage: finn-session [--list | --launch <id>]\n\nWith no arguments it runs the session broker. The broker owns the\ncatalogue, the installed list and app launch for this user.\n\nEnvironment: XDG_RUNTIME_DIR, FINN_APPS, FINN_INSTALLED,\n             FINN_SESSION_SOCK (tests).\n"

-- The arguments behind the name of the program.
unfoldable pub main : System → Peer → List Bytes → Ended
unfolding client_list client_launch
main sys peer [] = serves
main sys peer (first ∷ rest) =
    if equal first (codes "--help")
    then exits 0 usage []
    else if equal first (codes "--version")
    then exits 0 (codes "finn-session\n") []
    else by_count first rest
  where
    by_count : Bytes → List Bytes → Ended
    by_count command [] =
        if equal command (codes "--list")
        then client_list sys peer
        else exits 2 [] (codes "finn-session: unknown arguments\n")
    by_count command (id ∷ []) =
        if equal command (codes "--launch")
        then client_launch sys peer id
        else exits 2 [] (codes "finn-session: unknown arguments\n")
    by_count command _ = exits 2 [] (codes "finn-session: unknown arguments\n")
