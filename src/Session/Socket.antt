-- ===== src/Session/Socket.antt =====
-- `prepare_socket` of src/session/main.cpp, on the state of the directory and the path.
use finn_os.Base.{
  ℕ, ◌≡◌, ◌≢◌, ◌⊎◌, Bool, true, Option, none, some, ◌++◌, arith, ◌==◌, is_empty, if◌then◌else◌,
}
use finn_os.Text.Raw.{Bytes, codes}

pub data FileKind : Type 0 where
  absent socket other : FileKind

-- The path and its `parent_path()`, what stands at the path, and the answers of the calls:
-- `create_directories` and `unlink` with a message, `chmod` with its `errno` and message, and
-- whether `lstat` fails although something stands there, as it does when it may not look.
pub record Place : Type 0 where
  pub path : Bytes
  pub parent : Bytes
  pub status : FileKind
  pub lstat_error : Bool
  pub create_error : Option Bytes
  pub chmod_error : Option (ℕ × Bytes)
  pub unlink_error : Option Bytes
  pub mode : Option ℕ  -- the permissions of the parent, once `chmod` has set them

abbrev pub eperm : ℕ
eperm = 1

abbrev pub parent_mode : ℕ
parent_mode = 0o700

-- `chmod(parent, 0700)`: `EPERM` is let pass.
abbrev restrict : Place → Option (ℕ × Bytes) → Place × Option Bytes
restrict place none = (record place { mode = some parent_mode }, none)
restrict place (some (errno, message)) =
    if errno == eperm
    then (place, none)
    else (place, some (codes "cannot chmod " ++ (place.parent ++ (codes ": " ++ message))))

abbrev create : Place → Option Bytes → Place × Option Bytes
create place none = restrict place place.chmod_error
create place (some message) =
    (place, some (codes "cannot create " ++ (place.parent ++ (codes ": " ++ message))))

abbrev remove : Place → Option Bytes → Place × Option Bytes
remove place none = (record place { status = absent }, none)
remove place (some message) = (place, some (codes "cannot remove stale socket: " ++ message))

abbrev checked : Place → FileKind → Place × Option Bytes
checked place absent = (place, none)
checked place other = (place, some (place.path ++ codes " exists and is not a socket"))
checked place socket = remove place place.unlink_error

-- Whatever makes `lstat` fail, nothing is checked.
abbrev clear : Place → Place × Option Bytes
clear place = if place.lstat_error then (place, none) else checked place place.status

abbrev and_clear : Place × Option Bytes → Place × Option Bytes
and_clear (place, some error) = (place, some error)
and_clear (place, none) = clear place

-- `none` when the code returns true.
unfoldable pub prepare_socket : Place → Place × Option Bytes
prepare_socket place =
    if is_empty place.parent then clear place else and_clear (create place place.create_error)

-- When the path is prepared, nothing is left at it, or `lstat` has failed and it is as it was. What
-- changes at the path is that a socket goes. What is no socket stops the preparation, unless `lstat`
-- fails. And the parent's permissions, when they change, become 0700.
pub prepare_socket_lem :
    (place : Place)
    → (((prepare_socket place).1 ≢ none)
        ⊎ ((prepare_socket place).0.status ≡ absent)
        ⊎ ((place.lstat_error ≡ true) × ((prepare_socket place).0.status ≡ place.status)))
      × (((prepare_socket place).0.status ≡ place.status)
          ⊎ ((place.status ≡ socket) × ((prepare_socket place).0.status ≡ absent)))
      × ((place.status ≢ other) ⊎ (place.lstat_error ≡ true) ⊎ ((prepare_socket place).1 ≢ none))
      × (((prepare_socket place).0.mode ≡ place.mode)
          ⊎ ((prepare_socket place).0.mode ≡ some parent_mode))
unfolding prepare_socket
prepare_socket_lem place = ground arith
