-- ===== src/Ui/Names/Slugs.antt =====
-- What an app id that `lowercase_hyphenated` of src/ui/app.cpp makes looks like.
use finn_os.Base.{
  ℕ, ◌≡◌, inl, inr, refl, sym, ap, ap₂, ◌∙◌, Bool, true, false, not, ◌&&◌, ◌||◌, [], ◌∷◌, arith,
  ◌==◌, leb, is_empty, if◌then◌else◌, Bool-cases,
}
use finn_os.Text.Raw.{Bytes}
use finn_os.Ui.Names.{
  is_alnum, is_upper, to_lower, hyphenate, drop_dashes, keep_unless_dash, is_break, or_default,
  lowercase_hyphenated,
}

abbrev pub is_word : ℕ → Bool
is_word c = (leb b'0' c && leb c b'9') || (leb b'a' c && leb c b'z')

-- Words of small letters and digits, with one dash between two of them. The flag is that the byte
-- before belongs to a word.
unfoldable pub slug_from : Bool → Bytes → Bool
slug_from after [] = after
slug_from after (c ∷ cs) =
    let word = slug_from true cs in
    let dash = slug_from false cs in if is_word c then word else (c == b'-' && after) && dash

-- The same, where a dash may be the last byte.
unfoldable loose_from : Bool → Bytes → Bool
loose_from after [] = true
loose_from after (c ∷ cs) =
    let word = loose_from true cs in
    let dash = loose_from false cs in if is_word c then word else (c == b'-' && after) && dash

unfoldable pub has_alnum : Bytes → Bool
unfolding is_alnum
has_alnum [] = false
has_alnum (c ∷ cs) = is_alnum c || has_alnum cs

unfoldable has_word : Bytes → Bool
has_word [] = false
has_word (c ∷ cs) = is_word c || has_word cs

is_word-to_lower : (c : ℕ) → is_alnum c ≡ true → is_word (to_lower c) ≡ true
unfolding is_alnum is_upper to_lower
is_word-to_lower c h = ground arith

-- A byte of a word stays as it is.
to_lower-word : (c : ℕ) → is_word c ≡ true → (is_alnum c ≡ true) × (to_lower c ≡ c)
unfolding is_alnum is_upper to_lower
to_lower-word c h = (ground arith, ground arith)

hyphenate-loose :
    (begun last_was_dash : Bool) (cs : Bytes)
    → loose_from (begun && not last_was_dash) (hyphenate begun last_was_dash cs) ≡ true
unfolding loose_from hyphenate
hyphenate-loose begun last_was_dash [] = refl
hyphenate-loose begun last_was_dash (c ∷ cs) =
    let word = hyphenate-loose true false cs in
    let dash = hyphenate-loose true true cs in
    let skip = hyphenate-loose begun last_was_dash cs in
    let lower = is_word-to_lower c in ground arith

hyphenate-has_word :
    (begun last_was_dash : Bool) (cs : Bytes)
    → has_alnum cs ≡ true
    → has_word (hyphenate begun last_was_dash cs) ≡ true
unfolding has_alnum has_word hyphenate
hyphenate-has_word begun last_was_dash [] h = ground arith
hyphenate-has_word begun last_was_dash (c ∷ cs) h = elim (Bool-cases (is_alnum c)) [
  | inl e ↦ let lower = is_word-to_lower c e in ground arith
  | inr e ↦
      let dash = hyphenate-has_word true true cs in
      let skip = hyphenate-has_word begun last_was_dash cs in ground arith
]

keep_word :
    (after : Bool) (c : ℕ) (ds : Bytes)
    → is_word c ≡ true
    → (is_empty ds || slug_from true ds) ≡ true
    → (is_empty (keep_unless_dash c ds) || slug_from after (keep_unless_dash c ds)) ≡ true
unfolding slug_from
keep_word after c [] w h = ground arith
keep_word after c (d ∷ ds) w h = ground arith

keep_dash :
    (after : Bool) (c : ℕ) (ds : Bytes)
    → (c == b'-' && after) ≡ true
    → (is_empty ds || slug_from false ds) ≡ true
    → (is_empty (keep_unless_dash c ds) || slug_from after (keep_unless_dash c ds)) ≡ true
unfolding slug_from
keep_dash after c [] w h = ground arith
keep_dash after c (d ∷ ds) w h = ground arith

drop_dashes-slug :
    (after : Bool) (cs : Bytes)
    → loose_from after cs ≡ true
    → (is_empty (drop_dashes cs) || slug_from after (drop_dashes cs)) ≡ true
unfolding loose_from drop_dashes
drop_dashes-slug after [] h = refl
drop_dashes-slug after (c ∷ cs) h = elim (Bool-cases (is_word c)) [
  | inl e ↦ keep_word after c (drop_dashes cs) e (drop_dashes-slug true cs (ground arith))
  | inr e ↦
      keep_dash after c (drop_dashes cs) (ground arith) (drop_dashes-slug false cs (ground arith))
]

drop_dashes-has_word : (cs : Bytes) → has_word cs ≡ true → is_empty (drop_dashes cs) ≡ false
unfolding has_word drop_dashes
drop_dashes-has_word [] h = ground arith
drop_dashes-has_word (c ∷ cs) h =
    let rest = drop_dashes-has_word cs in kept (drop_dashes cs) (ground arith)
  where
    kept :
        (ds : Bytes)
        → (is_word c || not (is_empty ds)) ≡ true
        → is_empty (keep_unless_dash c ds) ≡ false
    kept [] k = ground arith
    kept (d ∷ ds) k = refl

-- A title with a letter or a digit becomes words of small letters and digits with one dash between
-- two of them, and without a dash at either end.
pub lowercase_hyphenated-slug :
    (title : Bytes) → has_alnum title ≡ true → slug_from false (lowercase_hyphenated title) ≡ true
unfolding lowercase_hyphenated
lowercase_hyphenated-slug title h =
    let out = hyphenate false false title in
    let filled = drop_dashes-has_word out (hyphenate-has_word false false title h) in
    let slug = drop_dashes-slug false out (hyphenate-loose false false title) in
    defaulted (drop_dashes out) filled slug
  where
    defaulted :
        (ds : Bytes)
        → is_empty ds ≡ false
        → (is_empty ds || slug_from false ds) ≡ true
        → slug_from false (or_default ds) ≡ true
    defaulted [] filled slug = ground arith
    defaulted (d ∷ ds) filled slug = slug

hyphenate-slug :
    (begun last_was_dash : Bool) (cs : Bytes)
    → slug_from (begun && not last_was_dash) cs ≡ true
    → hyphenate begun last_was_dash cs ≡ cs
unfolding slug_from hyphenate is_alnum is_upper
hyphenate-slug begun last_was_dash [] h = refl
hyphenate-slug begun last_was_dash (c ∷ cs) h = elim (Bool-cases (is_word c)) [
  | inl e ↦
      let word = hyphenate-slug true false cs (ground arith) in
      let same = to_lower-word c e in
      let alnum = same.0 in let lower = same.1 in rw alnum (ap₂ ◌∷◌ lower word)
  | inr e ↦
      let dash = hyphenate-slug true true cs (ground arith) in
      let is_dash : c ≡ b'-' = ground arith in
      let no_word : is_alnum c ≡ false = ap is_alnum is_dash in
      let breaks : (is_break c && (begun && not last_was_dash)) ≡ true = ground arith in
      rw (no_word, breaks) (ap₂ ◌∷◌ (sym is_dash) dash)
]

drop_dashes_slug : (after : Bool) (cs : Bytes) → slug_from after cs ≡ true → drop_dashes cs ≡ cs
unfolding slug_from drop_dashes
drop_dashes_slug after [] h = refl
drop_dashes_slug after (c ∷ cs) h = elim (Bool-cases (is_word c)) [
  | inl e ↦ rw (drop_dashes_slug true cs (ground arith)) (kept cs (ground arith))
  | inr e ↦ rw (drop_dashes_slug false cs (ground arith)) (kept cs (ground arith))
]
  where
    kept : (ds : Bytes) → (is_word c || not (is_empty ds)) ≡ true → keep_unless_dash c ds ≡ c ∷ ds
    kept [] k = ground arith
    kept (d ∷ ds) k = refl

fixed : (cs : Bytes) → slug_from false cs ≡ true → lowercase_hyphenated cs ≡ cs
unfolding lowercase_hyphenated slug_from
fixed [] h = ground arith
fixed (c ∷ cs) h =
    let same =
      ap drop_dashes (hyphenate-slug false false (c ∷ cs) h) ∙ drop_dashes_slug false (c ∷ cs) h in
    ap or_default same

-- An app id that is made of a title with a letter or a digit is not changed by making one of it.
lowercase_hyphenated_again :
    (title : Bytes)
    → has_alnum title ≡ true
    → lowercase_hyphenated (lowercase_hyphenated title) ≡ lowercase_hyphenated title
lowercase_hyphenated_again title h =
    fixed (lowercase_hyphenated title) (lowercase_hyphenated-slug title h)
