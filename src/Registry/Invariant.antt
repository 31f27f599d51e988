-- ===== src/Registry/Invariant.antt =====
-- What holds of every catalogue that `AppRegistry::load` returns.
use mathlib.Core.Option
use mathlib.Core.Option.{some-injective}
use finn_os.Base.{
  suc, ◌+◌, ◌≤◌, ◌≡◌, ◌≢◌, refl, sym, ap, subst, ◌∙◌, false, Option, none, some, List, [], ◌∷◌,
  ◌++◌, map, arith, ltb, length, All, All-append, Bool-cases, Option-cases, inl, inr,
}
use finn_os.Text.Raw.{Bytes, Without, equal, equal_sym}
use finn_os.Text.Trim.{trim, trim-All}
use finn_os.Text.Lines.{lines, lines-Without}
use finn_os.Registry.Defs.{
  entry, with_options, App, Files, mark_from, max_line, max_fields, find, skipped, mark_installed,
  load, load_lines, load_line, add_entry, split_fields,
}
use finn_os.Registry.Fields.{IsField, nil-IsField, width, split_fields-IsField, width-split_fields}
use finn_os.Registry.Marking.{mark, mark_lines-map, find-mark}

-- An entry of the catalogue: an id, clean fields, and a line that was not too long.
pub record IsEntry (app : App) : Type 0 where
  pub id_ne_nil : app.id ≢ []
  pub id_field : IsField app.id
  pub name_field : IsField app.name
  pub icon_field : IsField app.icon
  pub command_field : IsField app.command
  pub note_field : IsField app.note
  pub fits : length app.id + length app.name + length app.icon + 2 ≤ max_line

-- No two apps share an id.
abbrev pub Distinct : List App → Type 0
Distinct [] = Unit
Distinct (app ∷ apps) = (find app.id apps ≡ none) × Distinct apps

pub record IsCatalogue (apps : List App) : Type 0 where
  pub entries : All IsEntry apps
  pub distinct : Distinct apps

find-append_none :
    (id : Bytes) (apps : List App) (app : App)
    → find id apps ≡ none
    → equal app.id id ≡ false
    → find id (apps ++ (app ∷ [])) ≡ none
unfolding find
find-append_none id [] app h n = ground arith
find-append_none id (x ∷ apps) app h n = elim (Bool-cases (equal x.id id)) [
  | inl e ↦ cc (rw e at h)
  | inr e ↦ rw e (find-append_none id apps app (rw e at h) n)
]

Distinct-concat :
    (apps : List App) (app : App)
    → find app.id apps ≡ none
    → Distinct apps
    → Distinct (apps ++ (app ∷ []))
unfolding find
Distinct-concat [] app h d = (refl, tt)
Distinct-concat (x ∷ apps) app h d = elim (Bool-cases (equal x.id app.id)) [
  | inl e ↦ cc (rw e at h)
  | inr e ↦ (
    find-append_none x.id apps app d.0 (equal_sym app.id x.id ∙ e),
    Distinct-concat apps app (rw e at h) d.1,
  )
]

IsEntry-of_fields :
    (app : App)
    → app.id ≢ []
    → All IsField (app.id ∷ app.name ∷ app.icon ∷ app.command ∷ app.note ∷ [])
    → length app.id + length app.name + length app.icon + 2 ≤ max_line
    → IsEntry app
IsEntry-of_fields app n (i, (m, (c, (x, (y, _))))) w = record {
  id_ne_nil = n;
  id_field = i;
  name_field = m;
  icon_field = c;
  command_field = x;
  note_field = y;
  fits = w;
}

-- An entry with its first three fields, and any optional ones, is clean.
with_options-IsEntry :
    (id name icon : Bytes) (options : List Bytes)
    → id ≢ []
    → All IsField (id ∷ name ∷ icon ∷ options)
    → length id + length name + length icon + 2 ≤ max_line
    → IsEntry (with_options (entry id name icon) options)
with_options-IsEntry id name icon [] n (i, (m, (c, _))) w =
    IsEntry-of_fields _ n (i, (m, (c, (nil-IsField, (nil-IsField, tt))))) w
with_options-IsEntry id name icon (x ∷ []) n (i, (m, (c, (p, _)))) w =
    IsEntry-of_fields _ n (i, (m, (c, (p, (nil-IsField, tt))))) w
with_options-IsEntry id name icon (x ∷ y ∷ []) n (i, (m, (c, (p, (q, _))))) w =
    IsEntry-of_fields _ n (i, (m, (c, (p, (q, tt))))) w
with_options-IsEntry id name icon (x ∷ y ∷ z ∷ zs) n (i, (m, (c, (p, (q, _))))) w =
    IsEntry-of_fields _ n (i, (m, (c, (p, (q, tt))))) w

with_options_id : (app : App) (options : List Bytes) → (with_options app options).id ≡ app.id
with_options_id app [] = refl
with_options_id app (x ∷ []) = refl
with_options_id app (x ∷ y ∷ []) = refl
with_options_id app (x ∷ y ∷ z ∷ zs) = refl

add_entry-IsCatalogue :
    (apps : List App) (fields : List Bytes)
    → IsCatalogue apps
    → All IsField fields
    → width fields ≤ suc max_line
    → IsCatalogue (add_entry apps fields)
unfolding add_entry
add_entry-IsCatalogue apps [] k h w = k
add_entry-IsCatalogue apps (id ∷ []) k h w = k
add_entry-IsCatalogue apps (id ∷ name ∷ []) k h w = k
add_entry-IsCatalogue apps ([] ∷ name ∷ icon ∷ options) k h w = k
add_entry-IsCatalogue apps ((c ∷ cs) ∷ name ∷ icon ∷ options) k h w =
    elim (Option-cases (find (c ∷ cs) apps)) [
      | inl e ↦
          let app = with_options (entry (c ∷ cs) name icon) options in
          let fresh : find app.id apps ≡ none = rw with_options_id e in
          rw e (record {
            entries =
                All-append IsEntry apps (app ∷ []) k.entries
                  (with_options-IsEntry (c ∷ cs) name icon options (λ p. cc) h (omega arith), tt);
            distinct = Distinct-concat apps app fresh k.distinct;
          })
      | inr (x, e) ↦ rw e k
    ]

pub load_line-IsCatalogue :
    (apps : List App) (line : Bytes)
    → IsCatalogue apps
    → Without b'\n' line
    → IsCatalogue (load_line apps line)
unfolding load_line
load_line-IsCatalogue apps line k h = elim (Bool-cases (skipped (trim line))) [
  | inl e ↦ rw e k
  | inr e ↦ elim (Bool-cases (ltb max_line (length (trim line)))) [
    | inl f ↦ rw (e, f) k
    | inr f ↦
        rw (e, f)
          (add_entry-IsCatalogue apps (split_fields max_fields (trim line)) k
            (split_fields-IsField max_fields (trim line) (trim-All _ line h))
            (ground (arith, width-split_fields max_fields (trim line))))
  ]
]

load_lines-IsCatalogue :
    (ls : List Bytes) (apps : List App)
    → IsCatalogue apps
    → All (Without b'\n') ls
    → IsCatalogue (load_lines apps ls)
unfolding load_lines
load_lines-IsCatalogue [] apps k h = k
load_lines-IsCatalogue (line ∷ ls) apps k h =
    load_lines-IsCatalogue ls (load_line apps line) (load_line-IsCatalogue apps line k h.0) h.1

map-mark-entries :
    (ls : List Bytes) (apps : List App) → All IsEntry apps → All IsEntry (map (mark ls) apps)
map-mark-entries ls [] h = tt
map-mark-entries ls (app ∷ apps) (e, h) = (
  IsEntry-of_fields _ e.id_ne_nil
      (e.id_field, (e.name_field, (e.icon_field, (e.command_field, (e.note_field, tt))))) e.fits,
  map-mark-entries ls apps h,
)

map-mark-Distinct :
    (ls : List Bytes) (apps : List App) → Distinct apps → Distinct (map (mark ls) apps)
map-mark-Distinct ls [] d = tt
map-mark-Distinct ls (app ∷ apps) (n, d) =
    (find-mark ls app.id apps ∙ ap (Option.map (mark ls)) n, map-mark-Distinct ls apps d)

mark_installed-IsCatalogue :
    (list : Option Bytes) (apps : List App)
    → IsCatalogue apps
    → IsCatalogue (mark_installed list apps)
unfolding mark_installed
mark_installed-IsCatalogue none apps k = k
mark_installed-IsCatalogue (some list) apps k = rw (mark_lines-map (lines list) apps) (record {
  entries = map-mark-entries (lines list) apps k.entries;
  distinct = map-mark-Distinct (lines list) apps k.distinct;
})

mark_from-IsCatalogue :
    (files : Files) (path : Bytes) (apps : List App)
    → IsCatalogue apps
    → IsCatalogue (mark_from files path apps)
unfolding mark_from
mark_from-IsCatalogue files [] apps k = k
mark_from-IsCatalogue files (c ∷ cs) apps k = mark_installed-IsCatalogue (files (c ∷ cs)) apps k

pub load-some :
    (files : Files) (catalogue_path installed_path catalogue : Bytes)
    → files catalogue_path ≡ some catalogue
    → load files catalogue_path installed_path
      ≡ some (mark_from files installed_path (load_lines [] (lines catalogue)))
unfolding load
load-some files catalogue_path installed_path catalogue e = rw (e, load)

pub load-none :
    (files : Files) (catalogue_path installed_path : Bytes)
    → files catalogue_path ≡ none
    → load files catalogue_path installed_path ≡ none
unfolding load
load-none files catalogue_path installed_path e = rw (e, load)

-- Whatever the two files hold, a registry that loads has apps with distinct, nonempty ids; every
-- id, name, icon, command and note is trimmed and holds no bar and no line feed; and id, name and
-- icon fit on one catalogue line.
pub load-IsCatalogue :
    (files : Files) (catalogue_path installed_path : Bytes) (apps : List App)
    → load files catalogue_path installed_path ≡ some apps
    → IsCatalogue apps
load-IsCatalogue files catalogue_path installed_path apps h =
    elim (Option-cases (files catalogue_path)) [
      | inl e ↦ cc (load-none files catalogue_path installed_path e)
      | inr (catalogue, e) ↦
          subst IsCatalogue
            (some-injective _ _
              (sym (load-some files catalogue_path installed_path catalogue e) ∙ h))
            (mark_from-IsCatalogue files installed_path _ (
              load_lines-IsCatalogue (lines catalogue) [] (record { entries = tt; distinct = tt })
                (lines-Without catalogue)))
    ]
