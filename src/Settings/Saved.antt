-- ===== src/Settings/Saved.antt =====
-- What the readers find after a writer of the settings has run.
use finn_os.Base.{
  ◌≡◌, inl, inr, refl, ap, ◌∙◌, Bool, true, false, Option, none, some, List, [], ◌∷◌, ◌++◌, All,
  Bool-cases,
}
use finn_os.Text.Raw.{Bytes, codes, equal, Without}
use finn_os.Text.Lines.{lines-unlines}
use finn_os.Registry.{Files}
use finn_os.Settings.{
  Environment, Answers, system_path, home_path, home, user_settings_path, lines_of, either, first,
  first_in, says_dark, says_resolution, or_else, replace_dark, replace_display, save, config_path,
  forced, pick_theme, prefers_dark, read_dark_setting, read_resolution, write_dark_setting,
  write_display_setting,
}
use finn_os.Settings.Lookup.{
  first-replace_dark, first-replace_dark_resolution, first-replace_display,
  first-replace_display_dark,
}
use finn_os.Settings.Saving.{
  lines_of-Without, replace_dark-Without, replace_display-Without, save_lem, save_other,
}

-- What a successful save makes of the file, for a reader.
saved_first :
    {A : Type 0} (says : Bytes → Option A) (answers : Answers) (path : Bytes)
    (edit : List Bytes → List Bytes) (files : Files)
    → ((old : List Bytes) → All (Without b'\n') old → All (Without b'\n') (edit old))
    → answers.flushed ≡ true
    → (save answers path edit files).1 ≡ true
    → first says (lines_of ((save answers path edit files).0 path))
      ≡ first says (edit (lines_of (files path)))
saved_first says answers path edit files k w h =
    ap (λ text. first says (lines_of text)) ((save_lem answers path edit files).0 w h)
    ∙ ap (first says)
        (lines-unlines (edit (lines_of (files path))) (k _ (lines_of-Without (files path))))

first_in-hit :
    {A : Type 0} (files : Files) (says : Bytes → Option A) (path : Bytes) (paths : List Bytes)
    {a : A}
    → first says (lines_of (files path)) ≡ some a
    → first_in files says (path ∷ paths) ≡ some a
unfolding first_in
first_in-hit files says path paths h = rw (h, first_in) refl

first_in-two :
    {A : Type 0} (files saved : Files) (says : Bytes → Option A) (path other : Bytes)
    → first says (lines_of (saved path)) ≡ first says (lines_of (files path))
    → saved other ≡ files other
    → first_in saved says (path ∷ other ∷ []) ≡ first_in files says (path ∷ other ∷ [])
unfolding first_in
first_in-two files saved says path other h k =
    ap (λ o. either o (first_in saved says (other ∷ []))) h
    ∙ ap
        (λ text.
          either (first says (lines_of (files path))) (either (first says (lines_of text)) none))
        k

-- A setting that an edit does not change is read as before, whether or not the save succeeds, when
-- the text is flushed.
kept :
    {A : Type 0} (says : Bytes → Option A) (answers : Answers) (edit : List Bytes → List Bytes)
    (files : Files) (path : Bytes)
    → answers.flushed ≡ true
    → equal system_path path ≡ false
    → equal system_path (path ++ codes ".tmp") ≡ false
    → ((old : List Bytes) → All (Without b'\n') old → All (Without b'\n') (edit old))
    → ((old : List Bytes) → first says (edit old) ≡ first says old)
    → first_in (save answers path edit files).0 says (path ∷ system_path ∷ [])
      ≡ first_in files says (path ∷ system_path ∷ [])
kept says answers edit files path o n m w q =
    first_in-two files (save answers path edit files).0 says path system_path
      (elim (Bool-cases (save answers path edit files).1) [
        | inl h ↦ saved_first says answers path edit files w o h ∙ q (lines_of (files path))
        | inr h ↦ ap (λ text. first says (lines_of text)) ((save_lem answers path edit files).1 h)
      ])
      (save_other answers path system_path edit files n m)

-- When the stream's last bytes get out as it is closed: once the theme was written, it is read,
-- whatever the file held before, by the shell and by the settings app.
pub read-write_dark_setting :
    (answers : Answers) (dark : Bool) (getenv : Environment) (files : Files)
    → answers.flushed ≡ true
    → (write_dark_setting answers dark getenv files).1 ≡ true
    → read_dark_setting (write_dark_setting answers dark getenv files).0 getenv ≡ dark
unfolding write_dark_setting read_dark_setting
read-write_dark_setting answers dark getenv files w h =
    ap (λ o. or_else o false)
      (first_in-hit (write_dark_setting answers dark getenv files).0 says_dark
        (user_settings_path getenv) (system_path ∷ [])
        (saved_first says_dark answers (user_settings_path getenv) (replace_dark dark) files
            (replace_dark-Without dark) w h
          ∙ first-replace_dark dark _))

-- When the stream's last bytes get out as it is closed, and the texts hold no line feed: once the
-- resolution was written, it is read, whatever the file held before.
pub read-write_display_setting :
    (answers : Answers) (resolution scale : Bytes) (getenv : Environment) (files : Files)
    → Without b'\n' resolution
    → Without b'\n' scale
    → answers.flushed ≡ true
    → (write_display_setting answers resolution scale getenv files).1 ≡ true
    → read_resolution (write_display_setting answers resolution scale getenv files).0 getenv
      ≡ resolution
unfolding write_display_setting read_resolution
read-write_display_setting answers resolution scale getenv files r s w h =
    ap (λ o. or_else o (codes "1440x900"))
      (first_in-hit (write_display_setting answers resolution scale getenv files).0 says_resolution
        (user_settings_path getenv) (system_path ∷ [])
        (saved_first says_resolution answers (user_settings_path getenv)
            (replace_display resolution scale) files (replace_display-Without resolution scale r s)
            w h
          ∙ first-replace_display resolution scale _))

-- When the stream's last bytes get out as it is closed, the texts hold no line feed, and the user's
-- file and its temporary file are not the system's: the writers of the theme and of the display leave
-- each other's setting as it was read before, whether or not they succeed.
pub write_dark-write_display_apart :
    (answers : Answers) (dark : Bool) (resolution scale : Bytes) (getenv : Environment)
    (files : Files)
    → answers.flushed ≡ true
    → Without b'\n' resolution
    → Without b'\n' scale
    → equal system_path (user_settings_path getenv) ≡ false
    → equal system_path (user_settings_path getenv ++ codes ".tmp") ≡ false
    → (read_resolution (write_dark_setting answers dark getenv files).0 getenv
        ≡ read_resolution files getenv)
      × (read_dark_setting (write_display_setting answers resolution scale getenv files).0 getenv
          ≡ read_dark_setting files getenv)
unfolding write_dark_setting write_display_setting read_resolution read_dark_setting
write_dark-write_display_apart answers dark resolution scale getenv files o r s n m = (
  ap (λ u. or_else u (codes "1440x900"))
      (kept says_resolution answers (replace_dark dark) files (user_settings_path getenv) o n m
        (replace_dark-Without dark) (first-replace_dark_resolution dark)),
  ap (λ u. or_else u false)
      (kept says_dark answers (replace_display resolution scale) files (user_settings_path getenv) o
        n m (replace_display-Without resolution scale r s)
        (first-replace_display_dark resolution scale)),
)

-- A writer that reports a failure has left the user's settings file as it was.
write_failed :
    (answers : Answers) (dark : Bool) (resolution scale : Bytes) (getenv : Environment)
    (files : Files)
    → ((write_dark_setting answers dark getenv files).1 ≡ false
        → (write_dark_setting answers dark getenv files).0 (user_settings_path getenv)
          ≡ files (user_settings_path getenv))
      × ((write_display_setting answers resolution scale getenv files).1 ≡ false
          → (write_display_setting answers resolution scale getenv files).0
              (user_settings_path getenv)
            ≡ files (user_settings_path getenv))
unfolding write_dark_setting write_display_setting
write_failed answers dark resolution scale getenv files = (
  (save_lem answers (user_settings_path getenv) (replace_dark dark) files).1,
  (save_lem answers (user_settings_path getenv) (replace_display resolution scale) files).1,
)

-- Behind the override, the first file that is looked at is the one that was written.
first_in-written :
    (answers : Answers) (dark : Bool) (getenv : Environment) (files : Files) (others : List Bytes)
    → config_path (home getenv) ≡ user_settings_path getenv
    → answers.flushed ≡ true
    → (write_dark_setting answers dark getenv files).1 ≡ true
    → first_in
        (write_dark_setting answers dark getenv files).0
        says_dark
        (config_path (home getenv) ∷ others)
      ≡ some dark
unfolding write_dark_setting
first_in-written answers dark getenv files others p w h =
    first_in-hit (write_dark_setting answers dark getenv files).0 says_dark
      (config_path (home getenv)) others
      (rw p (
        saved_first says_dark answers (user_settings_path getenv) (replace_dark dark) files
          (replace_dark-Without dark) w h
        ∙ first-replace_dark dark _))

-- When the stream's last bytes get out as it is closed, and the programs make the same path of HOME:
-- the compositor and every app of the UI library find the theme that was last written, unless
-- FINN_DARK says otherwise.
pub themes-write_dark_setting :
    (answers : Answers) (dark : Bool) (getenv : Environment) (files : Files)
    → config_path (home getenv) ≡ user_settings_path getenv
    → forced (getenv (codes "FINN_DARK")) ≡ none
    → answers.flushed ≡ true
    → (write_dark_setting answers dark getenv files).1 ≡ true
    → (prefers_dark (write_dark_setting answers dark getenv files).0 getenv ≡ dark)
      × (pick_theme (write_dark_setting answers dark getenv files).0 getenv ≡ dark)
unfolding prefers_dark pick_theme
themes-write_dark_setting answers dark getenv files p f w h = (
  rw (f, prefers_dark)
      (ap (λ o. or_else o false)
        (first_in-written answers dark getenv files (home_path ∷ system_path ∷ []) p w h)),
  rw (f, pick_theme)
      (ap (λ o. or_else o false)
        (first_in-written answers dark getenv files (system_path ∷ []) p w h)),
)
