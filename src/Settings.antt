-- ===== src/Settings.antt =====
-- The settings file: `user_settings_path`, `read_dark_setting` and `write_dark_setting` of
-- src/shell/main.cpp, which apps/settings/main.cpp has as `read_dark` and `write_dark`, its
-- `read_resolution` and `write_display_setting`, `prefers_dark` of src/comp/server.cpp, and `pick_theme`
-- of src/ui/app.cpp.
pub mod Lookup
pub mod Saving
pub mod Saved
use finn_os.Base.{
  ℕ, ◌≡◌, Bool, true, false, not, ◌&&◌, ◌||◌, Option, none, some, List, [], ◌∷◌, ◌++◌, map, is_some,
  ◌==◌, is_empty, if◌then◌else◌,
}
use finn_os.Text.Raw.{Bytes, codes, equal, after_prefix}
use finn_os.Text.Lines.{lines, unlines}
use finn_os.Registry.{Files}

abbrev pub Environment : Type 0
Environment = Bytes → Option Bytes

abbrev pub system_path : Bytes
system_path = codes "/var/lib/finn/settings"

abbrev pub home_path : Bytes
home_path = codes "/home/finn/.config/finn/settings"

abbrev pub ends_in_slash : Bytes → Bool
ends_in_slash [] = false
ends_in_slash (c ∷ []) = c == b'/'
ends_in_slash (c ∷ d ∷ ds) = ends_in_slash (d ∷ ds)

-- The `/` of paths, on a name that is not absolute: no second slash is put in.
unfoldable pub join : Bytes → Bytes → Bytes
join base name = if is_empty base || ends_in_slash base then base ++ name else base ++ (b'/' ∷ name)

-- `HOME`, when it is set and not empty.
abbrev pub home : Environment → Option Bytes
home getenv = elim (getenv (codes "HOME")) [
  | none ↦ none
  | some dir ↦ if is_empty dir then none else some dir
]

abbrev settings_below : Option Bytes → Bytes
settings_below none =
    join (join (join (codes "/home/finn") (codes ".config")) (codes "finn")) (codes "settings")
settings_below (some dir) =
    join (join (join dir (codes ".config")) (codes "finn")) (codes "settings")

unfoldable pub user_settings_path : Environment → Bytes
unfolding join
user_settings_path getenv = settings_below (home getenv)

-- A stream on a file that cannot be opened gives no line.
abbrev pub lines_of : Option Bytes → List Bytes
lines_of none = []
lines_of (some text) = lines text

-- The first line that says something, over a file.
unfoldable pub first : {A : Type 0} → (Bytes → Option A) → List Bytes → Option A
first says [] = none
first says (line ∷ rest) =
    let later = first says rest in elim (says line) [ none ↦ later | some x ↦ some x ]

abbrev pub either : {A : Type 0} → Option A → Option A → Option A
either none later = later
either (some x) later = some x

-- The loops over the files of a list, in its order.
unfoldable pub first_in : {A : Type 0} → Files → (Bytes → Option A) → List Bytes → Option A
unfolding first
first_in files says [] = none
first_in files says (path ∷ paths) =
    either (first says (lines_of (files path))) (first_in files says paths)

abbrev pub dark_line : Bool → Bytes
dark_line dark = if dark then codes "dark=1" else codes "dark=0"

abbrev pub says_dark : Bytes → Option Bool
says_dark line =
    if equal line (codes "dark=1")
    then some true
    else if equal line (codes "dark=0")
    then some false
    else none

abbrev pub or_else : {A : Type 0} → Option A → A → A
or_else none fallback = fallback
or_else (some x) fallback = x

unfoldable pub read_dark_setting : Files → Environment → Bool
unfolding first_in user_settings_path
read_dark_setting files getenv =
    or_else (first_in files says_dark (user_settings_path getenv ∷ system_path ∷ [])) false

-- What stands behind "resolution=".
abbrev pub says_resolution : Bytes → Option Bytes
says_resolution line = after_prefix (codes "resolution=") line

unfoldable pub read_resolution : Files → Environment → Bytes
unfolding first_in user_settings_path
read_resolution files getenv =
    or_else (first_in files says_resolution (user_settings_path getenv ∷ system_path ∷ []))
      (codes "1440x900")

abbrev pub has_key : Bytes → Bytes → Bool
has_key key line = is_some (after_prefix key line)

unfoldable pub any_key : Bytes → List Bytes → Bool
any_key key [] = false
any_key key (line ∷ rest) = has_key key line || any_key key rest

-- The loop over the lines, and the line that is added when none was replaced.
unfoldable pub replace_dark : Bool → List Bytes → List Bytes
unfolding any_key
replace_dark dark old =
    map (λ line. if has_key (codes "dark=") line then dark_line dark else line) old
    ++ (if any_key (codes "dark=") old then [] else dark_line dark ∷ [])

-- The same in `write_display_setting`, for two keys; `scale` is the text that "%.1f" prints.
unfoldable pub replace_display : Bytes → Bytes → List Bytes → List Bytes
unfolding any_key
replace_display resolution scale old =
    map
      (λ line.
        if has_key (codes "resolution=") line
        then codes "resolution=" ++ resolution
        else if has_key (codes "scale=") line
        then codes "scale=" ++ scale
        else line)
      old
    ++ ((if any_key (codes "resolution=") old then [] else (codes "resolution=" ++ resolution) ∷ [])
        ++ (if any_key (codes "scale=") old then [] else (codes "scale=" ++ scale) ∷ []))

-- What the file system answers while a file is saved: `stored` is what the test of the stream finds,
-- and `flushed` whether what the stream still holds gets out when it is closed behind the test. When
-- one of them fails, `written` is what is left in the temporary file.
pub record Answers : Type 0 where
  pub directories : Bool
  pub opened : Bool
  pub stored : Bool
  pub flushed : Bool
  pub written : Bytes
  pub renamed : Bool

abbrev pub put : Bytes → Option Bytes → Files → Files
put path text files other = if equal other path then text else files other

-- The rest of both writers: the new text goes into a temporary file, which then takes the name. A
-- failure that comes when the stream is closed is not noticed.
unfoldable pub save : Answers → Bytes → (List Bytes → List Bytes) → Files → Files × Bool
save answers path edit files =
    let text = unlines (edit (lines_of (files path))) in
    let temporary = path ++ codes ".tmp" in
    let content = if answers.flushed then text else answers.written in
    if not answers.directories
    then (files, false)
    else if not answers.opened
    then (files, false)
    else if not answers.stored
    then (put temporary (some answers.written) files, false)
    else if not answers.renamed
    then (put temporary (some content) files, false)
    else (put temporary none (put path (some content) files), true)

unfoldable pub write_dark_setting : Answers → Bool → Environment → Files → Files × Bool
unfolding save user_settings_path replace_dark
write_dark_setting answers dark getenv files =
    save answers (user_settings_path getenv) (replace_dark dark) files

unfoldable pub write_display_setting : Answers → Bytes → Bytes → Environment → Files → Files × Bool
unfolding save user_settings_path replace_display
write_display_setting answers resolution scale getenv files =
    save answers (user_settings_path getenv) (replace_display resolution scale) files

-- The override of FINN_DARK.
abbrev pub forced : Option Bytes → Option Bool
forced none = none
forced (some text) =
    if equal text (codes "1") || (equal text (codes "true") || equal text (codes "dark"))
    then some true
    else if equal text (codes "0") || (equal text (codes "false") || equal text (codes "light"))
    then some false
    else none

abbrev pub config_path : Option Bytes → Bytes
config_path none = home_path
config_path (some dir) = dir ++ codes "/.config/finn/settings"

-- `prefers_dark` of src/comp/server.cpp.
unfoldable pub prefers_dark : Files → Environment → Bool
unfolding first_in
prefers_dark files getenv = elim (forced (getenv (codes "FINN_DARK"))) [
  | some dark ↦ dark
  | none ↦
      or_else (first_in files says_dark (config_path (home getenv) ∷ home_path ∷ system_path ∷ []))
        false
]

-- `pick_theme` of src/ui/app.cpp: whether it is the dark theme.
unfoldable pub pick_theme : Files → Environment → Bool
unfolding first_in
pick_theme files getenv = elim (forced (getenv (codes "FINN_DARK"))) [
  | some dark ↦ dark
  | none ↦ or_else (first_in files says_dark (config_path (home getenv) ∷ system_path ∷ [])) false
]
