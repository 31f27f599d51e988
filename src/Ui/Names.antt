-- ===== src/Ui/Names.antt =====
-- `lowercase_hyphenated` of src/ui/app.cpp: the app id that is made of a title.
pub mod Slugs
pub mod Words
use finn_os.Base.{
  ℕ, ◌+◌, ◌≡◌, ◌≢◌, refl, Bool, true, false, not, ◌&&◌, ◌||◌, List, [], ◌∷◌, ◌++◌, arith, ◌==◌, leb,
  is_empty, All, if◌then◌else◌,
}
use finn_os.Text.Raw.{Bytes, codes}

-- `std::isalnum` and `std::tolower` of the C locale.
unfoldable pub is_upper : ℕ → Bool
is_upper c = leb b'A' c && leb c b'Z'

unfoldable pub is_alnum : ℕ → Bool
unfolding is_upper
is_alnum c = (leb b'0' c && leb c b'9') || (is_upper c || (leb b'a' c && leb c b'z'))

unfoldable pub to_lower : ℕ → ℕ
unfolding is_upper
to_lower c = if is_upper c then c + 32 else c

abbrev pub is_break : ℕ → Bool
is_break c = c == b' ' || (c == b'-' || c == b'_')

-- The loop, on what is written behind `result`: the flags are that `result` is not empty and that
-- its last byte is a dash.
unfoldable pub hyphenate : Bool → Bool → Bytes → Bytes
unfolding is_alnum to_lower
hyphenate begun last_was_dash [] = []
hyphenate begun last_was_dash (c ∷ cs) =
    let word = to_lower c ∷ hyphenate true false cs in
    let dash = b'-' ∷ hyphenate true true cs in
    let skip = hyphenate begun last_was_dash cs in
    if is_alnum c then word else if is_break c && (begun && not last_was_dash) then dash else skip

-- The dashes at the end go.
abbrev pub keep_unless_dash : ℕ → Bytes → Bytes
keep_unless_dash c [] = if c == b'-' then [] else c ∷ []
keep_unless_dash c (d ∷ ds) = c ∷ d ∷ ds

unfoldable pub drop_dashes : Bytes → Bytes
drop_dashes [] = []
drop_dashes (c ∷ cs) = keep_unless_dash c (drop_dashes cs)

abbrev pub or_default : Bytes → Bytes
or_default [] = codes "finn.app"
or_default (c ∷ cs) = c ∷ cs

unfoldable pub lowercase_hyphenated : Bytes → Bytes
unfolding hyphenate drop_dashes
lowercase_hyphenated str = or_default (drop_dashes (hyphenate false false str))
