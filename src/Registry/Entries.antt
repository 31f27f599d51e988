-- ===== src/Registry/Entries.antt =====
-- The catalogue's text format: what `AppRegistry::load` reads back from a written catalogue.
use finn_os.Base.{
  ℕ, suc, ◌≤◌, ◌≡◌, refl, sym, ap, subst, ◌∙◌, false, none, some, List, [], ◌∷◌, ◌++◌, map,
  append_assoc, append-nil, arith, ltb, length, All, All-append, Bool-cases, inl, inr,
}
use finn_os.Text.Raw.{Bytes, Without, equal, equal_sym}
use finn_os.Text.Trim.{
  is_space, trim, trim_fixed, StartsSolid, IsTrimmed, IsEnded, IsEnded-cons, IsEnded-append,
}
use finn_os.Text.Split.{cut-some, cut-none}
use finn_os.Text.Lines.{unlines, lines-unlines}
use finn_os.Registry.Defs.{
  App, AppSource, Files, max_line, max_fields, find, skipped, load, load_lines, load_line,
  add_entry, split_fields, parse_source, app_source_name, mark_from, entry, with_options,
}
use finn_os.Registry.Fields.{IsField, split_fields_last, split_fields_more}
use finn_os.Registry.Invariant.{Distinct, load-some}

-- The line of an app: six fields between bars.
unfoldable pub print_entry : App → Bytes
print_entry app =
    app.id
    ++ (b'|'
        ∷ (app.name
            ++ (b'|'
                ∷ (app.icon
                    ++ (b'|'
                        ∷ (app.command
                            ++ (b'|' ∷ (app.note ++ (b'|' ∷ app_source_name app.source)))))))))

-- An app that a catalogue line can state.
pub record IsPrintable (app : App) : Type 0 where
  pub id_shown : skipped app.id ≡ false
  pub id_field : IsField app.id
  pub name_field : IsField app.name
  pub icon_field : IsField app.icon
  pub command_field : IsField app.command
  pub note_field : IsField app.note
  pub fits : length (print_entry app) ≤ max_line
  pub not_installed : app.installed ≡ false

split_fields_cons :
    (room : ℕ) (s rest : Bytes)
    → IsField s
    → split_fields (suc room) (s ++ (b'|' ∷ rest)) ≡ s ∷ split_fields room rest
split_fields_cons room s rest h =
    let e = cut-some b'|' s rest h.no_bar in
    split_fields_more room (s ++ (b'|' ∷ rest)) rest (ap (λ p. p.1) e)
    ∙ ap (λ p. trim p.0 ∷ split_fields room rest) e
    ∙ ap (λ t. t ∷ split_fields room rest) (trim_fixed s h.trimmed)

split_fields_end : (room : ℕ) (s : Bytes) → IsField s → split_fields (suc room) s ≡ s ∷ []
split_fields_end room s h =
    let e = cut-none b'|' s h.no_bar in
    split_fields_last room s (ap (λ p. p.1) e)
    ∙ ap (λ p. trim p.0 ∷ []) e
    ∙ ap (λ t. t ∷ []) (trim_fixed s h.trimmed)

app_source_name-IsField : (source : AppSource) → IsField (app_source_name source)
unfolding app_source_name is_space
app_source_name-IsField AppSource.native = ground arith
app_source_name-IsField _ = ground arith

app_source_name-IsEnded : (source : AppSource) → IsEnded (app_source_name source)
unfolding app_source_name is_space
app_source_name-IsEnded AppSource.native = ground arith
app_source_name-IsEnded _ = ground arith

-- The source's name is read back, that of an unknown source too.
pub parse_source-app_source_name :
    (source : AppSource) → parse_source (app_source_name source) ≡ source
unfolding app_source_name parse_source
parse_source-app_source_name AppSource.native = refl
parse_source-app_source_name AppSource.flatpak = refl
parse_source-app_source_name AppSource.winget = refl
parse_source-app_source_name AppSource.unknown = refl

split_fields-print_entry :
    (app : App)
    → IsPrintable app
    → split_fields max_fields (print_entry app)
      ≡ app.id ∷ app.name ∷ app.icon ∷ app.command ∷ app.note ∷ app_source_name app.source ∷ []
unfolding print_entry
split_fields-print_entry app h =
    split_fields_cons 5 app.id _ h.id_field
    ∙ ap (◌∷◌ app.id) (
        split_fields_cons 4 app.name _ h.name_field
        ∙ ap (◌∷◌ app.name) (
            split_fields_cons 3 app.icon _ h.icon_field
            ∙ ap (◌∷◌ app.icon) (
                split_fields_cons 2 app.command _ h.command_field
                ∙ ap (◌∷◌ app.command) (
                    split_fields_cons 1 app.note _ h.note_field
                    ∙ ap (◌∷◌ app.note)
                        (split_fields_end 0 _ (app_source_name-IsField app.source))))))

StartsSolid-append : (s t : Bytes) → skipped s ≡ false → StartsSolid s → StartsSolid (s ++ t)
unfolding skipped
StartsSolid-append [] t h p = cc
StartsSolid-append (c ∷ s) t h p = p

print_entry-IsTrimmed : (app : App) → IsPrintable app → IsTrimmed (print_entry app)
unfolding print_entry
print_entry-IsTrimmed app h = record {
  front = StartsSolid-append app.id _ h.id_shown h.id_field.trimmed.front;
  back =
      (bar app.id (
        bar app.name (
          bar app.icon
            (bar app.command (bar app.note (app_source_name-IsEnded app.source)))))).back;
}
  where
    bar : (s : Bytes) {t : Bytes} → IsEnded t → IsEnded (s ++ (b'|' ∷ t))
    bar s {t} e = IsEnded-append s (b'|' ∷ t) (IsEnded-cons b'|' t e)

skipped-append : (s t : Bytes) → skipped s ≡ false → skipped (s ++ t) ≡ false
unfolding skipped
skipped-append [] t h = cc
skipped-append (c ∷ s) t h = h

add_entry_fresh :
    (apps : List App) (id name icon : Bytes) (options : List Bytes)
    → skipped id ≡ false
    → find id apps ≡ none
    → add_entry apps (id ∷ name ∷ icon ∷ options)
      ≡ apps ++ (with_options (entry id name icon) options ∷ [])
unfolding add_entry skipped
add_entry_fresh apps [] name icon options h f = cc
add_entry_fresh apps (c ∷ cs) name icon options h f = rw f

-- A written entry is read back as the next app, unless its id is taken.
load_line-print_entry :
    (app : App) (apps : List App)
    → IsPrintable app
    → find app.id apps ≡ none
    → load_line apps (print_entry app) ≡ apps ++ (app ∷ [])
unfolding load_line
load_line-print_entry app apps h f =
    let shown : skipped (print_entry app) ≡ false =
      unfold print_entry in skipped-append app.id _ h.id_shown in
    let short : ltb max_line (length (print_entry app)) ≡ false = ground (arith, h.fits) in
    rw (trim_fixed (print_entry app) (print_entry-IsTrimmed app h), shown, short)
      (ap (add_entry apps) (split_fields-print_entry app h)
        ∙ add_entry_fresh apps app.id app.name app.icon _ h.id_shown f
        ∙ ap (λ a. apps ++ (a ∷ []))
            (ground (arith, parse_source-app_source_name app.source, h.not_installed)))

find-none-middle :
    (id : Bytes) (before after : List App) (app : App)
    → find id (before ++ (app ∷ after)) ≡ none
    → equal app.id id ≡ false
unfolding find
find-none-middle id [] after app h = elim (Bool-cases (equal app.id id)) [
  | inl e ↦ cc (rw e at h)
  | inr e ↦ e
]
find-none-middle id (x ∷ before) after app h = elim (Bool-cases (equal x.id id)) [
  | inl e ↦ cc (rw e at h)
  | inr e ↦ find-none-middle id before after app (rw e at h)
]

Distinct-middle :
    (before after : List App) (app : App)
    → Distinct (before ++ (app ∷ after))
    → find app.id before ≡ none
unfolding find
Distinct-middle [] after app d = refl
Distinct-middle (x ∷ before) after app d =
    rw (equal_sym x.id app.id ∙ find-none-middle x.id before after app d.0)
      (Distinct-middle before after app d.1)

load_lines-print_entry :
    (rest apps : List App)
    → All IsPrintable rest
    → Distinct (apps ++ rest)
    → load_lines apps (map print_entry rest) ≡ apps ++ rest
unfolding load_lines
load_lines-print_entry [] apps h d = sym (append-nil apps)
load_lines-print_entry (app ∷ rest) apps h d =
    ap (λ a. load_lines a (map print_entry rest))
      (load_line-print_entry app apps h.0 (Distinct-middle apps rest app d))
    ∙ load_lines-print_entry rest (apps ++ (app ∷ [])) h.1
        (subst Distinct (sym (append_assoc apps (app ∷ []) rest)) d)
    ∙ append_assoc apps (app ∷ []) rest

app_source_name-Without : (source : AppSource) → Without b'\n' (app_source_name source)
app_source_name-Without source = (app_source_name-IsField source).no_feed

print_entry-Without :
    (apps : List App) → All IsPrintable apps → All (Without b'\n') (map print_entry apps)
unfolding print_entry
print_entry-Without [] h = tt
print_entry-Without (app ∷ apps) (p, h) = (
  bar _ _ p.id_field (
      bar _ _ p.name_field (
        bar _ _ p.icon_field
          (bar _ _ p.command_field (bar _ _ p.note_field (app_source_name-Without app.source))))),
  print_entry-Without apps h,
)
  where
    bar : (s t : Bytes) → IsField s → Without b'\n' t → Without b'\n' (s ++ (b'|' ∷ t))
    bar s t f w = All-append _ s (b'|' ∷ t) f.no_feed ((λ e. cc), w)

-- A catalogue file written entry by entry, of printable apps with distinct ids, loads as those
-- apps in their order, when no installed list is asked for.
pub load-print_entry :
    (files : Files) (catalogue_path : Bytes) (apps : List App)
    → All IsPrintable apps
    → Distinct apps
    → files catalogue_path ≡ some (unlines (map print_entry apps))
    → load files catalogue_path [] ≡ some apps
unfolding mark_from
load-print_entry files catalogue_path apps h d e =
    load-some files catalogue_path [] _ e
    ∙ ap (λ ls. some (load_lines [] ls))
        (lines-unlines (map print_entry apps) (print_entry-Without apps h))
    ∙ ap some (load_lines-print_entry apps [] h d)
