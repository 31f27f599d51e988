-- ===== src/Registry/Lookup.antt =====
-- What `find` and `installed` of src/session/app_registry.cpp answer on a loaded registry.
use mathlib.Core.Option
use mathlib.Core.Option.{some-injective}
use finn_os.Base.{
  ◌≡◌, refl, sym, ap, subst, ◌∙◌, Bool, false, ◌&&◌, ◌||◌, Option, none, some, List, [], ◌∷◌, ◌++◌,
  append-nil, arith, ltb, length, is_empty, is_some, All, All-append, if◌then◌else◌, Bool-cases,
  Option-cases, inl, inr,
}
use finn_os.Text.Raw.{Bytes, equal}
use finn_os.Text.Trim.{trim}
use finn_os.Text.Lines.{lines}
use finn_os.Registry.Defs.{
  App, Files, max_line, find, is_installed, skipped, load, load_lines, load_line, add_entry,
  split_fields, max_fields, mark_from, mark_installed, entry, with_options,
}
use finn_os.Registry.Marking.{listed, mark_lines-map, find-mark, find_id}
use finn_os.Registry.Invariant.{load-some, load-none}

find-append_some :
    (id : Bytes) (apps more : List App) {app : App}
    → find id apps ≡ some app
    → find id (apps ++ more) ≡ some app
unfolding find
find-append_some id [] more h = cc
find-append_some id (x ∷ apps) more h = elim (Bool-cases (equal x.id id)) [
  | inl e ↦ rw e (rw e at h)
  | inr e ↦ rw e (find-append_some id apps more (rw e at h))
]

-- A line never takes an entry away, nor changes one.
add_entry-extends :
    (apps : List App) (fields : List Bytes)
    → (more : List App) × (add_entry apps fields ≡ apps ++ more)
unfolding add_entry
add_entry-extends apps [] = ([], sym (append-nil apps))
add_entry-extends apps (x ∷ []) = ([], sym (append-nil apps))
add_entry-extends apps (x ∷ y ∷ []) = ([], sym (append-nil apps))
add_entry-extends apps ([] ∷ y ∷ z ∷ zs) = ([], sym (append-nil apps))
add_entry-extends apps ((c ∷ cs) ∷ y ∷ z ∷ zs) = elim (Bool-cases (is_some (find (c ∷ cs) apps))) [
  | inl e ↦ ([], rw e (sym (append-nil apps)))
  | inr e ↦ (with_options (entry (c ∷ cs) y z) zs ∷ [], rw e)
]

load_line-extends :
    (apps : List App) (line : Bytes) → (more : List App) × (load_line apps line ≡ apps ++ more)
unfolding load_line
load_line-extends apps line = elim (Bool-cases (skipped (trim line))) [
  | inl e ↦ ([], rw e (sym (append-nil apps)))
  | inr e ↦ elim (Bool-cases (ltb max_line (length (trim line)))) [
    | inl f ↦ ([], rw (e, f) (sym (append-nil apps)))
    | inr f ↦
        let (more, g) = add_entry-extends apps (split_fields max_fields (trim line)) in
        (more, rw (e, f) g)
  ]
]

-- The first entry of an id wins: what `find` gives after some lines of a catalogue it gives after
-- any further lines.
find-load_lines :
    (id : Bytes) (before behind : List Bytes) (apps : List App) (app : App)
    → find id (load_lines apps before) ≡ some app
    → find id (load_lines apps (before ++ behind)) ≡ some app
unfolding load_lines
find-load_lines id [] [] apps app h = h
find-load_lines id [] (line ∷ behind) apps app h =
    let (more, e) = load_line-extends apps line in
    find-load_lines id [] behind (load_line apps line) app (rw e (find-append_some id apps more h))
find-load_lines id (line ∷ before) behind apps app h =
    find-load_lines id before behind (load_line apps line) app h

-- The installed list at a path; none without a path or a file.
abbrev pub list_at : Files → Bytes → Option Bytes
list_at files path = if is_empty path then none else files path

abbrev pub listed_in : Option Bytes → Bytes → Bool
listed_in none id = false
listed_in (some list) id = listed (lines list) id

abbrev mark_in : Option Bytes → App → App
mark_in list app = record app { installed = app.installed || listed_in list app.id }

map_unmarked : (o : Option App) → Option.map (mark_in none) o ≡ o
map_unmarked none = refl
map_unmarked (some app) = ap some (unmarked app)
  where
    unmarked : (a : App) → mark_in none a ≡ a
    unmarked a = ground arith

find-mark_installed :
    (list : Option Bytes) (id : Bytes) (apps : List App)
    → find id (mark_installed list apps) ≡ Option.map (mark_in list) (find id apps)
unfolding mark_installed
find-mark_installed none id apps = sym (map_unmarked (find id apps))
find-mark_installed (some list) id apps =
    ap (find id) (mark_lines-map (lines list) apps) ∙ find-mark (lines list) id apps

mark_from_lem :
    (files : Files) (path : Bytes) (apps : List App)
    → mark_from files path apps ≡ mark_installed (list_at files path) apps
unfolding mark_from mark_installed
mark_from_lem files [] apps = refl
mark_from_lem files (c ∷ cs) apps = refl

find-mark_from :
    (files : Files) (path id : Bytes) (apps : List App)
    → find id (mark_from files path apps) ≡ Option.map (mark_in (list_at files path)) (find id apps)
find-mark_from files path id apps =
    ap (find id) (mark_from_lem files path apps) ∙ find-mark_installed (list_at files path) id apps

-- Loading the catalogue alone marks nothing.
with_options_installed :
    (app : App) (options : List Bytes) → (with_options app options).installed ≡ app.installed
with_options_installed app [] = refl
with_options_installed app (x ∷ []) = refl
with_options_installed app (x ∷ y ∷ []) = refl
with_options_installed app (x ∷ y ∷ z ∷ zs) = refl

abbrev AllUnmarked : List App → Type 0
AllUnmarked = All (λ app. app.installed ≡ false)

add_entry-AllUnmarked :
    (apps : List App) (fields : List Bytes) → AllUnmarked apps → AllUnmarked (add_entry apps fields)
unfolding add_entry
add_entry-AllUnmarked apps [] h = h
add_entry-AllUnmarked apps (x ∷ []) h = h
add_entry-AllUnmarked apps (x ∷ y ∷ []) h = h
add_entry-AllUnmarked apps ([] ∷ y ∷ z ∷ zs) h = h
add_entry-AllUnmarked apps ((c ∷ cs) ∷ y ∷ z ∷ zs) h =
    elim (Bool-cases (is_some (find (c ∷ cs) apps))) [
      | inl e ↦ rw e h
      | inr e ↦ rw e (All-append _ apps _ h (with_options_installed (entry (c ∷ cs) y z) zs, tt))
    ]

load_line-AllUnmarked :
    (apps : List App) (line : Bytes) → AllUnmarked apps → AllUnmarked (load_line apps line)
unfolding load_line
load_line-AllUnmarked apps line h = elim (Bool-cases (skipped (trim line))) [
  | inl e ↦ rw e h
  | inr e ↦ elim (Bool-cases (ltb max_line (length (trim line)))) [
    | inl f ↦ rw (e, f) h
    | inr f ↦ rw (e, f) (add_entry-AllUnmarked apps (split_fields max_fields (trim line)) h)
  ]
]

load_lines-AllUnmarked :
    (ls : List Bytes) (apps : List App) → AllUnmarked apps → AllUnmarked (load_lines apps ls)
unfolding load_lines
load_lines-AllUnmarked [] apps h = h
load_lines-AllUnmarked (line ∷ ls) apps h =
    load_lines-AllUnmarked ls (load_line apps line) (load_line-AllUnmarked apps line h)

find-AllUnmarked :
    (id : Bytes) (apps : List App) (app : App)
    → AllUnmarked apps
    → find id apps ≡ some app
    → app.installed ≡ false
unfolding find
find-AllUnmarked id [] app u h = cc
find-AllUnmarked id (x ∷ apps) app u h = elim (Bool-cases (equal x.id id)) [
  | inl e ↦ rw (← some-injective _ _ (rw e at h)) u.0
  | inr e ↦ find-AllUnmarked id apps app u.1 (rw e at h)
]

is_installed-mark_from :
    (files : Files) (path id : Bytes) (apps : List App)
    → AllUnmarked apps
    → is_installed id (mark_from files path apps)
      ≡ (is_some (find id (mark_from files path apps)) && listed_in (list_at files path) id)
unfolding is_installed
is_installed-mark_from files path id apps u = elim (Option-cases (find id apps)) [
  | inl e ↦ rw (find-mark_from files path id apps) (rw e)
  | inr (app, e) ↦
      rw (find-mark_from files path id apps)
        (rw e (rw (find-AllUnmarked id apps app u e, find_id id apps e)))
]

-- On a registry that loaded, an id counts as installed exactly when the catalogue has it and a
-- line of the installed list, trimmed and no comment, is that id. Without a path for the list, or
-- without the file, nothing is installed.
pub is_installed-load :
    (files : Files) (catalogue_path installed_path id : Bytes) (apps : List App)
    → load files catalogue_path installed_path ≡ some apps
    → is_installed id apps ≡ (is_some (find id apps) && listed_in (list_at files installed_path) id)
is_installed-load files catalogue_path installed_path id apps h =
    elim (Option-cases (files catalogue_path)) [
      | inl e ↦ cc (load-none files catalogue_path installed_path e)
      | inr (catalogue, e) ↦
          subst
            (λ a.
              is_installed id a
              ≡ (is_some (find id a) && listed_in (list_at files installed_path) id))
            (some-injective _ _
              (sym (load-some files catalogue_path installed_path catalogue e) ∙ h))
            (is_installed-mark_from files installed_path id _
              (load_lines-AllUnmarked (lines catalogue) [] tt))
    ]
