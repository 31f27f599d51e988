-- ===== src/Tests/Folders.antt =====
-- A walk through the Files app of apps/files/main.cpp.
use finn_os.Base.{ℕ, ◌≡◌, refl, true, false, none, some, [], ◌∷◌, if◌then◌else◌}
use finn_os.Text.Raw.{Bytes, codes, equal}
use finn_os.Settings.{Environment}
use finn_os.FilesApp.{
  Entry, Disk, Browser, visible, less, before, insert, sort, fill, refresh, nth, act, go_back,
  click, open_browser, new_browser, collapse_if,
}
use finn_os.FilesApp.Paths.{has_slash, back-click}
use finn_os.FilesApp.Walking.{IsSettled, acts, session-IsSettled}
use finn_os.FilesApp.Listing.{IsListed, refresh-IsListed}

abbrev folder : Bytes → Entry
folder name = record { name = name; directory = true; size = 0 }

abbrev file : Bytes → ℕ → Entry
file name size = record { name = name; directory = false; size = size }

abbrev no_environment : Environment
no_environment name = none

-- A home with a hidden file, two files and a folder; anything else cannot be read.
abbrev disk : Disk
disk = record {
  list = λ path.
      if equal path (codes "/home/finn")
      then some
          (file (codes "b") 2 ∷ file (codes ".c") 3 ∷ file (codes "a") 1 ∷ folder (codes "z") ∷ [])
      else none;
  is_directory = λ path. equal path (codes "/home/finn");
}

abbrev home : Browser
home = open_browser disk no_environment

home_entries : home.entries ≡ folder (codes "z") ∷ file (codes "a") 1 ∷ file (codes "b") 2 ∷ []
unfolding open_browser new_browser collapse_if refresh fill visible sort insert before less equal
home_entries = refl

session-IsSettled_example : IsSettled (
    acts
      ((disk, click 0) ∷ (disk, go_back) ∷ (disk, click 1) ∷ [])
      (open_browser disk no_environment))
session-IsSettled_example =
    session-IsSettled disk no_environment ((disk, click 0) ∷ (disk, go_back) ∷ (disk, click 1) ∷ [])

refresh-IsListed_example : IsListed (refresh disk home) (disk.list home.path)
refresh-IsListed_example = refresh-IsListed disk home

back-click_example : act disk go_back (act disk (click 0) home) ≡ refresh disk home
unfolding open_browser new_browser collapse_if refresh fill visible sort insert before less equal
    nth has_slash
back-click_example = back-click disk 0 (folder (codes "z")) home refl refl refl refl refl
