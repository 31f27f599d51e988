-- ===== src/Ui/Names/Words.antt =====
-- The app id that `lowercase_hyphenated` of src/ui/app.cpp makes, by the words of the title.
use finn_os.Base.{
  ℕ, ◌≡◌, ◌≢◌, inl, inr, refl, ap, ◌∙◌, Bool, true, false, not, ◌&&◌, ◌||◌, List, [], ◌∷◌, ◌++◌,
  arith, ◌==◌, All, if◌then◌else◌, Bool-cases,
}
use finn_os.Text.Raw.{Bytes, codes}
use finn_os.Ui.Names.{
  is_alnum, is_upper, to_lower, hyphenate, drop_dashes, keep_unless_dash, is_break, or_default,
  lowercase_hyphenated,
}

-- A word joins the others when it is not empty.
abbrev and_word : Bytes → List Bytes → List Bytes
and_word [] words = words
and_word (c ∷ cs) words = (c ∷ cs) ∷ words

-- The word that a text begins with, and the words behind it. A space, a dash and an underscore end a
-- word; of the other bytes the letters, in small ones, and the digits belong to it.
unfoldable pub cut_words : Bytes → Bytes × List Bytes
unfolding is_alnum to_lower
cut_words [] = ([], [])
cut_words (c ∷ cs) =
    let (word, words) = cut_words cs in
    if is_alnum c
    then (to_lower c ∷ word, words)
    else if c == b' ' || (c == b'-' || c == b'_')
    then ([], and_word word words)
    else (word, words)

unfoldable pub words_of : Bytes → List Bytes
unfolding cut_words
words_of title = and_word (cut_words title).0 (cut_words title).1

-- Words, each behind a dash.
unfoldable pub dashed : List Bytes → Bytes
dashed [] = []
dashed (word ∷ words) = b'-' ∷ (word ++ dashed words)

abbrev joined : List Bytes → Bytes
joined [] = []
joined (word ∷ words) = word ++ dashed words

-- The words with a dash between two of them, or the id of a title that has none.
abbrev pub id_of : List Bytes → Bytes
id_of [] = codes "finn.app"
id_of (word ∷ words) = word ++ dashed words

and_word-All :
    (word : Bytes) (words : List Bytes)
    → All (λ w. w ≢ []) words
    → All (λ w. w ≢ []) (and_word word words)
and_word-All [] words h = h
and_word-All (c ∷ cs) words h = ((λ e. cc), h)

cut_words-All : (cs : Bytes) → All (λ w. w ≢ []) (cut_words cs).1
unfolding cut_words
cut_words-All [] = tt
cut_words-All (c ∷ cs) =
    let rest = cut_words-All cs in
    elim (Bool-cases (is_alnum c)) [
      | inl e ↦ rw e rest
      | inr e ↦ elim (Bool-cases (is_break c)) [
        | inl f ↦ rw (e, f) (and_word-All (cut_words cs).0 (cut_words cs).1 rest)
        | inr f ↦ rw (e, f) rest
      ]
    ]

words_of-All : (cs : Bytes) → All (λ w. w ≢ []) (words_of cs)
unfolding words_of
words_of-All cs = and_word-All (cut_words cs).0 (cut_words cs).1 (cut_words-All cs)

-- A dash stays before a word and goes at the end.
dash_before :
    (words : List Bytes)
    → All (λ w. w ≢ []) words
    → keep_unless_dash b'-' (joined words) ≡ dashed words
unfolding dashed
dash_before [] h = refl
dash_before ([] ∷ words) h = absurd (h.0 refl)
dash_before ((c ∷ cs) ∷ words) h = refl

letter_stays :
    (c : ℕ) (ds : Bytes) → is_alnum c ≡ true → keep_unless_dash (to_lower c) ds ≡ to_lower c ∷ ds
unfolding is_alnum is_upper to_lower
letter_stays c [] h = ground arith
letter_stays c (d ∷ ds) h = refl

-- What the loop writes: inside of a word its rest and the others behind dashes, and else the words.
abbrev expected : Bool → Bytes → Bytes
expected inside cs =
    if inside then (cut_words cs).0 ++ dashed (cut_words cs).1 else joined (words_of cs)

hyphenate_lem :
    (begun last_was_dash : Bool) (cs : Bytes)
    → drop_dashes (hyphenate begun last_was_dash cs) ≡ expected (begun && not last_was_dash) cs
unfolding hyphenate drop_dashes cut_words words_of dashed
hyphenate_lem begun last_was_dash [] = ground arith
hyphenate_lem begun last_was_dash (c ∷ cs) = elim (Bool-cases (is_alnum c)) [
  | inl e ↦ rw e (
      letter_stays c (drop_dashes (hyphenate true false cs)) e
      ∙ (ap (λ ds. to_lower c ∷ ds) (hyphenate_lem true false cs) ∙ ground arith))
  | inr e ↦ elim (Bool-cases (is_break c)) [
    | inr f ↦ rw (e, f) (hyphenate_lem begun last_was_dash cs)
    | inl f ↦ elim (Bool-cases (begun && not last_was_dash)) [
      | inl g ↦
          rw (e, f, g)
            (ap (keep_unless_dash b'-') (hyphenate_lem true true cs)
              ∙ dash_before (words_of cs) (words_of-All cs))
      | inr g ↦ rw (e, f, g) (hyphenate_lem begun last_was_dash cs ∙ ap (λ b. expected b cs) g)
    ]
  ]
]

or_default-id_of :
    (words : List Bytes) → All (λ w. w ≢ []) words → or_default (joined words) ≡ id_of words
or_default-id_of [] h = refl
or_default-id_of ([] ∷ words) h = absurd (h.0 refl)
or_default-id_of ((c ∷ cs) ∷ words) h = refl

-- The app id of a title is made of its words, one dash between two of them, where a word is what
-- stands between spaces, dashes and underscores, of which only the letters, in small ones, and the
-- digits are left; a word of which nothing is left does not count. A title without a word gives
-- finn.app.
pub lowercase_hyphenated-words_of :
    (title : Bytes) → lowercase_hyphenated title ≡ id_of (words_of title)
unfolding lowercase_hyphenated
lowercase_hyphenated-words_of title =
    ap or_default (hyphenate_lem false false title)
    ∙ or_default-id_of (words_of title) (words_of-All title)
