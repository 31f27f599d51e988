-- ===== src/Tests/Files.antt =====
-- Runs of src/session/app_registry.cpp on small files.
use finn_os.Base.{
  ◌≡◌, refl, sym, true, false, ◌&&◌, none, some, [], ◌∷◌, arith, is_some, if◌then◌else◌,
}
use finn_os.Text.Raw.{Bytes, codes, equal, Without}
use finn_os.Text.Trim.{trim, trim_front, trim_back, is_space}
use finn_os.Text.Split.{cut}
use finn_os.Text.Lines.{lines, unlines}
use finn_os.Registry.{
  App, AppSource, Files, load, load_line, load_lines, find, is_installed, split_fields,
  parse_source, add_entry, mark_from, mark_installed, mark_lines, mark_id, skipped, app_source_name,
}
use finn_os.Registry.Fields.{IsField, trim-IsField}
use finn_os.Registry.Invariant.{IsCatalogue, load-IsCatalogue}
use finn_os.Registry.Lookup.{is_installed-load, listed_in}
use finn_os.Registry.Entries.{print_entry, IsPrintable, load-print_entry}

-- A catalogue with a comment, two apps, an app with a used id and a line with two fields.
abbrev pub catalogue : Bytes
catalogue =
    codes "# apps\n ed | Editor|e.png|/bin/ed\nfx|Fox|f.png||web|flatpak\ned|Other|o.png\nfx|Fox"

abbrev pub list : Bytes
list = codes "# installed\n ed \n"

abbrev pub disk : Files
disk path =
    if equal path (codes "/apps")
    then some catalogue
    else if equal path (codes "/list")
    then some list
    else none

abbrev pub editor : App
editor = record {
  id = codes "ed";
  name = codes "Editor";
  icon = codes "e.png";
  command = codes "/bin/ed";
  note = [];
  source = AppSource.native;
  installed = true;
}

abbrev pub fox : App
fox = record {
  id = codes "fx";
  name = codes "Fox";
  icon = codes "f.png";
  command = [];
  note = codes "web";
  source = AppSource.flatpak;
  installed = false;
}

pub load-disk : load disk (codes "/apps") (codes "/list") ≡ some (editor ∷ fox ∷ [])
unfolding load load_lines load_line add_entry split_fields parse_source skipped find mark_from
    mark_installed mark_lines mark_id trim trim_front trim_back is_space cut equal lines
load-disk = refl

load-disk_missing : load disk (codes "/none") [] ≡ none
unfolding load equal
load-disk_missing = refl

pub sample-IsCatalogue : IsCatalogue (editor ∷ fox ∷ [])
sample-IsCatalogue =
    load-IsCatalogue disk (codes "/apps") (codes "/list") (editor ∷ fox ∷ []) load-disk

load-IsCatalogue_example : IsCatalogue (editor ∷ fox ∷ [])
load-IsCatalogue_example =
    load-IsCatalogue disk (codes "/apps") (codes "/list") (editor ∷ fox ∷ []) load-disk

is_installed-load_example :
    is_installed (codes "fx") (editor ∷ fox ∷ [])
    ≡ (is_some (find (codes "fx") (editor ∷ fox ∷ [])) && listed_in (some list) (codes "fx"))
unfolding equal
is_installed-load_example =
    is_installed-load disk (codes "/apps") (codes "/list") (codes "fx") (editor ∷ fox ∷ [])
      load-disk

abbrev plain : App
plain = record editor { installed = false }

find-plain : find (codes "ed") (load_lines [] (codes "ed|Editor|e.png|/bin/ed" ∷ [])) ≡ some plain
unfolding load_lines load_line add_entry split_fields parse_source skipped find trim trim_front
    trim_back is_space cut equal
find-plain = refl

pub field : (s : Bytes) → Without b'|' s → Without b'\n' s → trim s ≡ s → IsField s
field s b f t = rw (sym t) (trim-IsField s b f)

abbrev file_of : Bytes → Files
file_of text path = if equal path (codes "/apps") then some text else none

plain-IsPrintable : IsPrintable plain
unfolding skipped trim trim_front trim_back is_space app_source_name print_entry
plain-IsPrintable = record {
  id_shown = refl;
  id_field = field (codes "ed") (ground arith) (ground arith) refl;
  name_field = field (codes "Editor") (ground arith) (ground arith) refl;
  icon_field = field (codes "e.png") (ground arith) (ground arith) refl;
  command_field = field (codes "/bin/ed") (ground arith) (ground arith) refl;
  note_field = field [] tt tt refl;
  fits = omega arith;
  not_installed = refl;
}

load-print_entry_example :
    load (file_of (unlines (print_entry plain ∷ []))) (codes "/apps") [] ≡ some (plain ∷ [])
unfolding find equal
load-print_entry_example =
    load-print_entry (file_of (unlines (print_entry plain ∷ []))) (codes "/apps") (plain ∷ [])
      (plain-IsPrintable, tt) (refl, tt) refl
