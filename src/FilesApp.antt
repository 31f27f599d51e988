-- ===== src/FilesApp.antt =====
-- `class Files` of apps/files/main.cpp: the folder that is shown, and the ways to another. Its scroll
-- position and its drawing are left out.
pub mod Sorting
pub mod Paths
pub mod Walking
pub mod Listing
use finn_os.Base.{
  ℕ, zero, suc, Bool, true, false, not, ◌&&◌, ◌||◌, Option, none, some, List, [], ◌∷◌, ◌++◌,
  is_empty, ltb, ◌==◌, if◌then◌else◌,
}
use finn_os.Text.Raw.{Bytes, codes, equal}
use finn_os.Settings.{Environment, join, home}

pub record Entry : Type 0 where
  pub name : Bytes
  pub directory : Bool
  pub size : ℕ

pub record Place : Type 0 where
  pub name : Bytes
  pub icon : Bytes
  pub path : Bytes

-- What the file system has under a path: the entries of a directory that can be read, with their
-- kinds and sizes, and whether there is a directory.
pub record Disk : Type 0 where
  pub list : Bytes → Option (List Entry)
  pub is_directory : Bytes → Bool

pub record Browser : Type 0 where
  pub home_path : Bytes
  pub path : Bytes
  pub places : List Place
  pub entries : List Entry
  pub error : Bytes
  pub selected : Bytes
  pub sidebar_open : Bool

-- `<` on strings.
unfoldable pub less : Bytes → Bytes → Bool
less a [] = false
less [] (d ∷ ds) = true
less (c ∷ cs) (d ∷ ds) = let rest = less cs ds in if c == d then rest else ltb c d

-- The order of the list: directories first, then by name.
unfoldable pub before : Entry → Entry → Bool
unfolding less
before a b =
    if a.directory && not b.directory
    then true
    else if b.directory && not a.directory
    then false
    else less a.name b.name

-- `std::sort` with this order.
unfoldable pub insert : Entry → List Entry → List Entry
unfolding before
insert e [] = e ∷ []
insert e (x ∷ xs) = let rest = insert e xs in if before e x then e ∷ (x ∷ xs) else x ∷ rest

unfoldable pub sort : List Entry → List Entry
unfolding insert
sort [] = []
sort (x ∷ xs) = insert x (sort xs)

abbrev pub is_hidden : Bytes → Bool
is_hidden [] = true
is_hidden (c ∷ cs) = c == b'.'

-- The loop over the directory; a directory has no size.
unfoldable pub visible : List Entry → List Entry
visible [] = []
visible (item ∷ items) =
    let rest = visible items in
    let entry = if item.directory then record item { size = 0 } else item in
    if is_hidden item.name then rest else entry ∷ rest

unfoldable pub fill : Option (List Entry) → Browser → Browser
unfolding visible sort
fill none b = record b { entries = []; error = codes "Cannot read " ++ b.path; selected = [] }
fill (some items) b = record b { entries = sort (visible items); error = []; selected = [] }

unfoldable pub refresh : Disk → Browser → Browser
unfolding fill
refresh disk b = fill (disk.list b.path) b

-- `std::filesystem::path::parent_path`, where the path does not begin with two slashes: what stands
-- before the last name, without slashes at its end unless it is the root.

unfoldable pub up_to_slash : Bytes → Bytes
up_to_slash [] = []
up_to_slash (c ∷ cs) =
    let rest = up_to_slash cs in if is_empty rest && not (c == b'/') then [] else c ∷ rest

abbrev pub keep_unless_slash : ℕ → Bytes → Bytes
keep_unless_slash c [] = if c == b'/' then [] else c ∷ []
keep_unless_slash c (d ∷ ds) = c ∷ d ∷ ds

unfoldable pub drop_slashes : Bytes → Bytes
drop_slashes [] = []
drop_slashes (c ∷ cs) = keep_unless_slash c (drop_slashes cs)

unfoldable pub parent_path : Bytes → Bytes
unfolding up_to_slash drop_slashes
parent_path path =
    let dir = up_to_slash path in let cut = drop_slashes dir in if is_empty cut then dir else cut

unfoldable pub can_go_back : Browser → Bool
unfolding parent_path equal
can_go_back b = not (is_empty (parent_path b.path)) && not (equal b.path (codes "/"))

unfoldable pub nth : ℕ → List Entry → Option Entry
nth n [] = none
nth zero (e ∷ es) = some e
nth (suc n) (e ∷ es) = nth n es

-- A click on an entry.
unfoldable pub choose : Disk → Option Entry → Browser → Browser
unfolding refresh join
choose disk none b = b
choose disk (some e) b =
    if e.directory
    then refresh disk (record b { path = join b.path e.name })
    else record b { selected = e.name }

-- The controls that `draw` looks at.
pub data Action : Type 0 where
  go_back go_home reload collapse expand : Action
  go_to : Place → Action
  click : ℕ → Action

unfoldable pub act : Disk → Action → Browser → Browser
unfolding refresh parent_path can_go_back nth choose
act disk go_back b =
    if can_go_back b then refresh disk (record b { path = parent_path b.path }) else b
act disk go_home b = refresh disk (record b { path = b.home_path })
act disk reload b = refresh disk b
act disk collapse b = record b { sidebar_open = false }
act disk expand b = record b { sidebar_open = true }
act disk (go_to place) b = refresh disk (record b { path = place.path })
act disk (click n) b = choose disk (nth n b.entries) b

abbrev pub place : Bytes → Bytes → Bytes → Place
place name icon path = record { name = name; icon = icon; path = path }

unfoldable pub candidates : Bytes → List Place
unfolding join
candidates home_path =
    place (codes "Home") (codes "home-09.svg") home_path
    ∷ place (codes "Documents") (codes "folder.svg") (join home_path (codes "Documents"))
    ∷ place (codes "Downloads") (codes "folder.svg") (join home_path (codes "Downloads"))
    ∷ place (codes "Pictures") (codes "folder.svg") (join home_path (codes "Pictures"))
    ∷ place (codes "Music") (codes "folder.svg") (join home_path (codes "Music"))
    ∷ place (codes "Videos") (codes "folder.svg") (join home_path (codes "Videos"))
    ∷ place (codes "Desktop") (codes "folder.svg") (join home_path (codes "Desktop"))
    ∷ []

unfoldable pub load_places : Disk → List Place → List Place
load_places disk [] = []
load_places disk (p ∷ ps) =
    let rest = load_places disk ps in if disk.is_directory p.path then p ∷ rest else rest

abbrev or_home : Option Bytes → Bytes
or_home none = codes "/home/finn"
or_home (some dir) = dir

abbrev is_one : Option Bytes → Bool
is_one none = false
is_one (some text) = equal text (codes "1")

unfoldable pub new_browser : Disk → Bytes → Browser
unfolding candidates load_places
new_browser disk home_path = record {
  home_path = home_path;
  path = home_path;
  places = load_places disk (candidates home_path);
  entries = [];
  error = [];
  selected = [];
  sidebar_open = true;
}

-- The sidebar is closed where FINN_FILES_COLLAPSED is 1.
unfoldable pub collapse_if : Bool → Browser → Browser
collapse_if collapsed b = if collapsed then record b { sidebar_open = false } else b

unfoldable pub open_browser : Disk → Environment → Browser
unfolding refresh new_browser collapse_if equal
open_browser disk getenv =
    collapse_if (is_one (getenv (codes "FINN_FILES_COLLAPSED")))
      (refresh disk (new_browser disk (or_home (home getenv))))
