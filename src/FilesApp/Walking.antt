-- ===== src/FilesApp/Walking.antt =====
-- What the list of apps/files/main.cpp shows, wherever its user goes.
use finn_os.Base.{
  ℕ, zero, suc, ◌≡◌, refl, Bool, true, false, not, ◌&&◌, ◌||◌, Option, none, some, List, [], ◌∷◌,
  is_empty, arith, if◌then◌else◌, if_both, Option-cases, inl, inr,
}
use finn_os.Text.Raw.{Bytes, equal, equal_refl}
use finn_os.Settings.{Environment, join}
use finn_os.FilesApp.{
  Entry, Disk, Browser, visible, fill, refresh, nth, choose, can_go_back, parent_path, act, Action,
  go_back, go_home, reload, collapse, expand, go_to, click, collapse_if, open_browser,
}
use finn_os.FilesApp.Sorting.{sorted, sort-sorted}

-- A file of the list.
unfoldable pub has_file : Bytes → List Entry → Bool
unfolding equal
has_file name [] = false
has_file name (e ∷ es) = (not e.directory && equal e.name name) || has_file name es

-- The list is in order, and what is selected is a file of it.
pub record IsSettled (b : Browser) : Type 0 where
  pub ordered : sorted b.entries ≡ true
  pub selection : (is_empty b.selected || has_file b.selected b.entries) ≡ true

fill-IsSettled : (now : Option (List Entry)) (b : Browser) → IsSettled (fill now b)
unfolding fill sorted
fill-IsSettled none b = record { ordered = refl; selection = refl }
fill-IsSettled (some items) b = record { ordered = sort-sorted (visible items); selection = refl }

refresh-IsSettled : (disk : Disk) (b : Browser) → IsSettled (refresh disk b)
unfolding refresh
refresh-IsSettled disk b = fill-IsSettled (disk.list b.path) b

nth-has_file :
    (n : ℕ) (es : List Entry) (e : Entry)
    → nth n es ≡ some e
    → e.directory ≡ false
    → has_file e.name es ≡ true
unfolding nth has_file
nth-has_file n [] e at file = ground arith
nth-has_file zero (x ∷ es) e at file = let same = equal_refl e.name in ground arith
nth-has_file (suc n) (x ∷ es) e at file = let rest = nth-has_file n es e at file in ground arith

choose-IsSettled :
    (disk : Disk) (n : ℕ) (b : Browser) → IsSettled b → IsSettled (choose disk (nth n b.entries) b)
unfolding choose
choose-IsSettled disk n b h = elim (Option-cases (nth n b.entries)) [
  | inl nothing ↦ rw nothing h
  | inr (e, at) ↦ rw at (picked e at e.directory refl)
]
  where
    picked :
        (e : Entry)
        → nth n b.entries ≡ some e
        → (d : Bool) → e.directory ≡ d
        → IsSettled (
            if d
            then refresh disk (record b { path = join b.path e.name })
            else record b { selected = e.name })
    picked e at true kind = refresh-IsSettled disk (record b { path = join b.path e.name })
    picked e at false kind =
        let found = nth-has_file n b.entries e at kind in
        record { ordered = h.ordered; selection = ground arith }

act-IsSettled : (disk : Disk) (a : Action) (b : Browser) → IsSettled b → IsSettled (act disk a b)
unfolding act
act-IsSettled disk go_back b h =
    if_both {A = Browser} IsSettled (can_go_back b)
      (refresh disk (record b { path = parent_path b.path })) b
      (refresh-IsSettled disk (record b { path = parent_path b.path })) h
act-IsSettled disk go_home b h = refresh-IsSettled disk (record b { path = b.home_path })
act-IsSettled disk reload b h = refresh-IsSettled disk b
act-IsSettled disk collapse b h = record { ordered = h.ordered; selection = h.selection }
act-IsSettled disk expand b h = record { ordered = h.ordered; selection = h.selection }
act-IsSettled disk (go_to place) b h = refresh-IsSettled disk (record b { path = place.path })
act-IsSettled disk (click n) b h = choose-IsSettled disk n b h

-- What the user does, with the disk as it is then.
unfoldable pub acts : List (Disk × Action) → Browser → Browser
unfolding act
acts [] b = b
acts (d ∷ ds) b = acts ds (act d.0 d.1 b)

acts-IsSettled :
    (actions : List (Disk × Action)) (b : Browser) → IsSettled b → IsSettled (acts actions b)
unfolding acts
acts-IsSettled [] b h = h
acts-IsSettled (d ∷ ds) b h = acts-IsSettled ds (act d.0 d.1 b) (act-IsSettled d.0 d.1 b h)

collapse_if-IsSettled :
    (collapsed : Bool) (b : Browser) → IsSettled b → IsSettled (collapse_if collapsed b)
unfolding collapse_if
collapse_if-IsSettled true b h = record { ordered = h.ordered; selection = h.selection }
collapse_if-IsSettled false b h = h

open_browser-IsSettled : (disk : Disk) (getenv : Environment) → IsSettled (open_browser disk getenv)
unfolding open_browser
open_browser-IsSettled disk getenv =
    collapse_if-IsSettled _ (refresh disk _) (refresh-IsSettled disk _)

-- From the start of the app, whatever is clicked and however the disk changes in between: the
-- entries are sorted, and what is selected is a file among them.
pub session-IsSettled :
    (disk : Disk) (getenv : Environment) (actions : List (Disk × Action))
    → IsSettled (acts actions (open_browser disk getenv))
session-IsSettled disk getenv actions =
    acts-IsSettled actions (open_browser disk getenv) (open_browser-IsSettled disk getenv)
