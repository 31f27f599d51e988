-- ===== src/FileSize.antt =====
-- `format_size` of apps/files/main.cpp.
use finn_os.Base.{
  ℕ, ◌+◌, ◌*◌, ◌/◌, ◌≤◌, ◌<◌, ◌≡◌, ◌⊎◌, inl, inr, refl, ◌++◌, arith, ltb, if◌then◌else◌, Bool-cases,
}
use finn_os.Text.Raw.{Bytes, codes}
use finn_os.Text.Decimal.{to_string}

unfoldable pub format_size : ℕ → Bytes
format_size bytes =
    if ltb bytes 1024
    then to_string bytes ++ codes " B"
    else if ltb bytes (1024 * 1024)
    then to_string (bytes / 1024) ++ codes " KB"
    else if ltb bytes (1024 * 1024 * 1024)
    then to_string (bytes / (1024 * 1024)) ++ codes " MB"
    else to_string (bytes / (1024 * 1024 * 1024)) ++ codes " GB"

pub data SizeUnit : Type 0 where
  single kilo mega giga : SizeUnit

abbrev pub unit_size : SizeUnit → ℕ
unit_size single = 1
unit_size kilo = 1024
unit_size mega = 1024 * 1024
unit_size giga = 1024 * 1024 * 1024

abbrev pub unit_name : SizeUnit → Bytes
unit_name single = codes " B"
unit_name kilo = codes " KB"
unit_name mega = codes " MB"
unit_name giga = codes " GB"

-- A size as a count of units.
pub record Shown (bytes : ℕ) : Type 0 where
  pub count : ℕ
  pub unit : SizeUnit
  pub text : format_size bytes ≡ to_string count ++ unit_name unit
  pub rounded : (count * unit_size unit ≤ bytes) × (bytes < (count + 1) * unit_size unit)
  pub short : (count < 1024) ⊎ (unit ≡ giga)
  pub largest : (unit ≡ single) ⊎ (1 ≤ count)

-- A size is shown as the number of whole units of bytes, kilobytes, megabytes or gigabytes in it.
-- The number is below 1024 unless the unit is the gigabyte, and it is not 0 unless the unit is the
-- byte; so the unit is the largest of the four that is not above the size.
pub format_size-Shown : (bytes : ℕ) → Shown bytes
unfolding format_size
format_size-Shown bytes = elim (Bool-cases (ltb bytes 1024)) [
  | inl e ↦ record {
    count = bytes;
    unit = single;
    text = rw e refl;
    rounded = (omega arith, omega arith);
    short = inl (ground arith);
    largest = inl refl;
  }
  | inr e ↦ elim (Bool-cases (ltb bytes (1024 * 1024))) [
    | inl f ↦ record {
      count = bytes / 1024;
      unit = kilo;
      text = rw (e, f) refl;
      rounded = (omega arith, omega arith);
      short = inl (ground arith);
      largest = inr (ground arith);
    }
    | inr f ↦ elim (Bool-cases (ltb bytes (1024 * 1024 * 1024))) [
      | inl g ↦ record {
        count = bytes / (1024 * 1024);
        unit = mega;
        text = rw (e, f, g) refl;
        rounded = (omega arith, omega arith);
        short = inl (ground arith);
        largest = inr (ground arith);
      }
      | inr g ↦ record {
        count = bytes / (1024 * 1024 * 1024);
        unit = giga;
        text = rw (e, f, g) refl;
        rounded = (omega arith, omega arith);
        short = inr refl;
        largest = inr (ground arith);
      }
    ]
  ]
]
