-- ===== src/Registry/Marking.antt =====
-- `mark_installed` of src/session/app_registry.cpp: the two loops against membership in the list.
use mathlib.Core.Option
use finn_os.Base.{
  ◌≡◌, refl, ap, ap₂, ◌∙◌, Bool, false, not, ◌&&◌, ◌||◌, some, List, [], ◌∷◌, map, arith,
  Bool-cases, inl, inr,
}
use finn_os.Text.Raw.{Bytes, equal, equal_iff}
use finn_os.Text.Trim.{trim}
use finn_os.Registry.Defs.{App, find, skipped, mark_id, mark_lines}

-- Some line of the installed list, trimmed and no comment, is the id.
abbrev pub listed : List Bytes → Bytes → Bool
listed [] id = false
listed (line ∷ rest) id = (not (skipped (trim line)) && equal id (trim line)) || listed rest id

abbrev pub mark : List Bytes → App → App
mark ls app = record app { installed = app.installed || listed ls app.id }

abbrev mark_if : Bytes → App → App
mark_if id app = record app { installed = app.installed || equal app.id id }

mark_id-map : (id : Bytes) (apps : List App) → mark_id id apps ≡ map (mark_if id) apps
unfolding mark_id
mark_id-map id [] = refl
mark_id-map id (app ∷ apps) = ground (arith, mark_id-map id apps)

map-map : (f g : App → App) (apps : List App) → map f (map g apps) ≡ map (λ app. f (g app)) apps
map-map f g [] = refl
map-map f g (app ∷ apps) = ap (◌∷◌ (f (g app))) (map-map f g apps)

map_ext :
    (f g : App → App) (apps : List App) → ((app : App) → f app ≡ g app) → map f apps ≡ map g apps
map_ext f g [] h = refl
map_ext f g (app ∷ apps) h = ap₂ ◌∷◌ (h app) (map_ext f g apps h)

-- One pass over the list marks an app exactly when one of its lines is the app's id, and
-- changes nothing else.
pub mark_lines-map : (ls : List Bytes) (apps : List App) → mark_lines ls apps ≡ map (mark ls) apps
unfolding mark_lines
mark_lines-map [] [] = refl
mark_lines-map [] (app ∷ apps) = ground (arith, mark_lines-map [] apps)
mark_lines-map (line ∷ rest) apps = elim (Bool-cases (skipped (trim line))) [
  | inl e ↦ rw e (mark_lines-map rest apps ∙ map_ext _ _ apps (λ app. ground arith))
  | inr e ↦ rw e (
      mark_lines-map rest (mark_id (trim line) apps)
      ∙ ap (map (mark rest)) (mark_id-map (trim line) apps)
      ∙ map-map (mark rest) (mark_if (trim line)) apps
      ∙ map_ext _ _ apps (λ app. ground arith))
]

pub find-mark :
    (ls : List Bytes) (id : Bytes) (apps : List App)
    → find id (map (mark ls) apps) ≡ Option.map (mark ls) (find id apps)
unfolding find
find-mark ls id [] = refl
find-mark ls id (app ∷ apps) = ground (arith, find-mark ls id apps)

-- The id that `find` was asked for.
pub find_id : (id : Bytes) (apps : List App) {app : App} → find id apps ≡ some app → app.id ≡ id
unfolding find
find_id id [] h = ground arith
find_id id (x ∷ apps) {app} h = elim (Bool-cases (equal x.id id)) [
  | inl e ↦ ground (arith, equal_iff x.id id)
  | inr e ↦ find_id id apps (rw e at h)
]
