-- ===== src/Session/Environment.antt =====
-- What finn-session takes from the system, and the paths of src/common/paths.hpp.
use finn_os.Base.{ℕ, Bool, Option, none, some, List, ◌∷◌, ◌++◌, is_empty, if◌then◌else◌}
use finn_os.Text.Raw.{Bytes, codes}
use finn_os.Text.Decimal.{to_string}
use finn_os.Registry.{Files}

abbrev pub catalogue_default : Bytes
catalogue_default = codes "/usr/share/finn/apps.registry"

abbrev pub installed_default : Bytes
installed_default = codes "/var/lib/finn/installed"

abbrev pub wayland_path : Bytes
wayland_path = codes "/run/finn/wayland-0"

abbrev pub session_directory : Bytes
session_directory = codes "finn"

abbrev pub session_socket : Bytes
session_socket = codes "session.sock"

-- The result of `posix_spawn`: the process, or the error number.
pub data Spawned : Type 0 where
  process : ℕ → Spawned
  refused : ℕ → Spawned

-- One call of `posix_spawn`: the program, its arguments and its environment block.
pub record Launch : Type 0 where
  pub program : Bytes
  pub argv : List Bytes
  pub envp : List Bytes

-- What the system answers while a request is served.
pub record System : Type 0 where
  pub files : Files
  pub getenv : Bytes → Option Bytes
  pub executable : Bytes → Bool  -- `access(path, X_OK) == 0`
  pub spawn : Launch → Spawned
  pub strerror : ℕ → Bytes
  pub uid : ℕ  -- `getuid()`

-- A variable that is unset or empty counts as absent: `value != nullptr && *value != '\0'`.
abbrev pub nonempty : Option Bytes → Option Bytes
nonempty none = none
nonempty (some value) = if is_empty value then none else some value

abbrev pub value_or : Option Bytes → Bytes → Bytes
value_or none fallback = fallback
value_or (some value) fallback = value

unfoldable pub catalogue_path : System → Bytes
catalogue_path sys = value_or (nonempty (sys.getenv (codes "FINN_APPS"))) catalogue_default

unfoldable pub installed_path : System → Bytes
installed_path sys = value_or (nonempty (sys.getenv (codes "FINN_INSTALLED"))) installed_default

-- `session_socket_path` of src/session/client.cpp.
unfoldable pub session_socket_path : System → Bytes
session_socket_path sys = elim (nonempty (sys.getenv (codes "FINN_SESSION_SOCK"))) [
  | some path ↦ path
  | none ↦ elim (nonempty (sys.getenv (codes "XDG_RUNTIME_DIR"))) [
    | some runtime ↦ runtime ++ (b'/' ∷ (session_directory ++ (b'/' ∷ session_socket)))
    | none ↦ codes "/tmp/finn-session-" ++ (to_string sys.uid ++ codes ".sock")
  ]
]
