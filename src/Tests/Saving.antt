-- ===== src/Tests/Saving.antt =====
-- Runs of the settings' readers and writers.
use finn_os.Base.{◌≡◌, refl, true, false, none, some, [], arith, if◌then◌else◌}
use finn_os.Text.Raw.{Bytes, codes, equal, after_prefix}
use finn_os.Text.Lines.{lines}
use finn_os.Registry.{Files}
use finn_os.Settings.{
  Environment, Answers, join, user_settings_path, first, first_in, save, prefers_dark, pick_theme,
  read_dark_setting, read_resolution, write_dark_setting, write_display_setting, system_path,
}
use finn_os.Settings.Saved.{
  read-write_dark_setting, read-write_display_setting, write_dark-write_display_apart,
  themes-write_dark_setting,
}

abbrev environment : Environment
environment name = if equal name (codes "HOME") then some (codes "/home/ann") else none

abbrev user_file : Bytes
user_file = codes "/home/ann/.config/finn/settings"

abbrev disk : Files
disk path =
    if equal path user_file
    then some (codes "resolution=800x600\ndark=0\ndark=0\n")
    else if equal path system_path
    then some (codes "dark=1")
    else none

abbrev fine : Answers
fine = record {
  directories = true;
  opened = true;
  stored = true;
  flushed = true;
  written = [];
  renamed = true;
}

reads-disk :
    (read_dark_setting disk environment ≡ false)
    × (read_resolution disk environment ≡ codes "800x600")
unfolding read_dark_setting read_resolution user_settings_path join first_in first lines equal
    after_prefix
reads-disk = (refl, refl)

user_path : user_settings_path environment ≡ user_file
unfolding user_settings_path join equal
user_path = refl

read-write_dark_setting_example :
    read_dark_setting (write_dark_setting fine true environment disk).0 environment ≡ true
unfolding write_dark_setting save
read-write_dark_setting_example = read-write_dark_setting fine true environment disk refl refl

read-write_display_setting_example :
    read_resolution
      (write_display_setting fine (codes "1024x768") (codes "1.5") environment disk).0
      environment
    ≡ codes "1024x768"
unfolding write_display_setting save
read-write_display_setting_example =
    read-write_display_setting fine (codes "1024x768") (codes "1.5") environment disk (ground arith)
      (ground arith) refl refl

write_dark-write_display_apart_example :
    (read_resolution (write_dark_setting fine true environment disk).0 environment
      ≡ read_resolution disk environment)
    × (read_dark_setting
          (write_display_setting fine (codes "1x1") (codes "1.0") environment disk).0
          environment
        ≡ read_dark_setting disk environment)
unfolding user_settings_path join equal
write_dark-write_display_apart_example =
    write_dark-write_display_apart fine true (codes "1x1") (codes "1.0") environment disk refl
      (ground arith) (ground arith) refl refl

abbrev full : Answers
full = record fine { stored = false; written = codes "resol" }

themes-write_dark_setting_example :
    (prefers_dark (write_dark_setting fine true environment disk).0 environment ≡ true)
    × (pick_theme (write_dark_setting fine true environment disk).0 environment ≡ true)
unfolding user_settings_path join equal write_dark_setting save
themes-write_dark_setting_example =
    themes-write_dark_setting fine true environment disk refl refl refl refl
