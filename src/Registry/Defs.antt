-- ===== src/Registry/Defs.antt =====
-- src/session/app_registry.cpp: the catalogue parser, the installed list, lookup by id.
use finn_os.Base.{
  ℕ, zero, suc, Bool, true, false, not, ◌&&◌, ◌||◌, Option, none, some, List, [], ◌∷◌, ◌++◌, ◌==◌,
  ltb, length, is_empty, is_some, if◌then◌else◌,
}
use finn_os.Text.Raw.{Bytes, codes, equal}
use finn_os.Text.Trim.{trim}
use finn_os.Text.Split.{cut}
use finn_os.Text.Lines.{lines}

pub data AppSource : Type 0 where
  native flatpak winget unknown : AppSource

pub record App : Type 0 where
  pub id : Bytes
  pub name : Bytes
  pub icon : Bytes
  pub command : Bytes
  pub note : Bytes
  pub source : AppSource
  pub installed : Bool

abbrev pub max_fields : ℕ
max_fields = 6

abbrev pub max_line : ℕ
max_line = 4096

-- At most `room` fields: what is behind the last bar that counts is dropped.
unfoldable pub split_fields : ℕ → Bytes → List Bytes
split_fields zero line = []
split_fields (suc room) line =
    let (field, rest) = cut b'|' line in
    elim rest [ none ↦ trim field ∷ [] | some behind ↦ trim field ∷ split_fields room behind ]

unfoldable pub parse_source : Bytes → AppSource
unfolding equal
parse_source text =
    if is_empty text || equal text (codes "native")
    then AppSource.native
    else if equal text (codes "flatpak")
    then AppSource.flatpak
    else if equal text (codes "winget")
    then AppSource.winget
    else AppSource.unknown

unfoldable pub app_source_name : AppSource → Bytes
app_source_name AppSource.native = codes "native"
app_source_name AppSource.flatpak = codes "flatpak"
app_source_name AppSource.winget = codes "winget"
app_source_name AppSource.unknown = codes "unknown"

abbrev is_native : AppSource → Bool
is_native AppSource.native = true
is_native _ = false

unfoldable pub launchable : App → Bool
launchable app = is_native app.source && not (is_empty app.command)

-- An app as it is declared in the loop, with the three fields that every entry has.
abbrev pub entry : Bytes → Bytes → Bytes → App
entry id name icon = record {
  id = id;
  name = name;
  icon = icon;
  command = [];
  note = [];
  source = AppSource.native;
  installed = false;
}

-- The optional fields.
abbrev pub with_options : App → List Bytes → App
with_options app [] = app
with_options app (command ∷ []) = record app { command = command }
with_options app (command ∷ note ∷ []) = record app { command = command; note = note }
with_options app (command ∷ note ∷ source ∷ _) = record app {
  command = command;
  note = note;
  source = parse_source source;
}

unfoldable pub find : Bytes → List App → Option App
find id [] = none
find id (app ∷ apps) = let rest = find id apps in if equal app.id id then some app else rest

-- The body of the loop of `AppRegistry::load` behind `split_fields`.
unfoldable pub add_entry : List App → List Bytes → List App
add_entry apps (id ∷ name ∷ icon ∷ options) =
    if is_empty id
    then apps
    else if is_some (find id apps)
    then apps
    else apps ++ (with_options (entry id name icon) options ∷ [])
add_entry apps _ = apps

-- A line with nothing on it, or a comment.
unfoldable pub skipped : Bytes → Bool
skipped [] = true
skipped (c ∷ cs) = c == b'#'

unfoldable pub load_line : List App → Bytes → List App
load_line apps line =
    let text = trim line in
    if skipped text
    then apps
    else if ltb max_line (length text)
    then apps
    else add_entry apps (split_fields max_fields text)

unfoldable pub load_lines : List App → List Bytes → List App
load_lines apps [] = apps
load_lines apps (line ∷ rest) = load_lines (load_line apps line) rest

-- The inner loop of `mark_installed`.
unfoldable pub mark_id : Bytes → List App → List App
mark_id id [] = []
mark_id id (app ∷ apps) =
    (if equal app.id id then record app { installed = true } else app) ∷ mark_id id apps

unfoldable pub mark_lines : List Bytes → List App → List App
mark_lines [] apps = apps
mark_lines (line ∷ rest) apps =
    let id = trim line in mark_lines rest (if skipped id then apps else mark_id id apps)

-- The files that can be opened, by path.
abbrev pub Files : Type 0
Files = Bytes → Option Bytes

-- `none` when the list cannot be opened.
unfoldable pub mark_installed : Option Bytes → List App → List App
mark_installed none apps = apps
mark_installed (some list) apps = mark_lines (lines list) apps

-- The last step of `load`: an empty path of the installed list is skipped.
unfoldable pub mark_from : Files → Bytes → List App → List App
mark_from files installed_path apps =
    if is_empty installed_path then apps else mark_installed (files installed_path) apps

unfoldable pub load : Files → Bytes → Bytes → Option (List App)
load files catalogue_path installed_path = elim (files catalogue_path) [
  | none ↦ none
  | some catalogue ↦ some (mark_from files installed_path (load_lines [] (lines catalogue)))
]

abbrev flag_of : Option App → Bool
flag_of none = false
flag_of (some app) = app.installed

-- `AppRegistry::installed`.
unfoldable pub is_installed : Bytes → List App → Bool
is_installed id apps = flag_of (find id apps)
