-- ===== src/Settings/Lookup.antt =====
-- What the loops that read the settings find in a file that a loop of a writer has edited.
use finn_os.Base.{
  ◌≡◌, refl, sym, ◌∙◌, Bool, true, false, Option, none, some, List, [], ◌∷◌, ◌++◌, map,
  if◌then◌else◌, Bool-cases, if_both, ap, Option-cases, inl, inr,
}
use finn_os.Text.Raw.{
  Bytes, codes, equal, equal_iff, after_prefix, after_prefix-append, append-after_prefix,
}
use finn_os.Settings.{
  first, dark_line, says_dark, says_resolution, has_key, any_key, replace_dark, replace_display,
}

first-skip :
    {A : Type 0} (says : Bytes → Option A) (l : Bytes) (ls : List Bytes)
    → says l ≡ none
    → first says (l ∷ ls) ≡ first says ls
unfolding first
first-skip says l ls e = rw (e, first) refl

first-hit :
    {A : Type 0} (says : Bytes → Option A) (l : Bytes) (ls : List Bytes) {a : A}
    → says l ≡ some a
    → first says (l ∷ ls) ≡ some a
unfolding first
first-hit says l ls e = rw (e, first) refl

first-append_none :
    {A : Type 0} (says : Bytes → Option A) (xs ys : List Bytes)
    → first says xs ≡ none
    → first says (xs ++ ys) ≡ first says ys
first-append_none says [] ys h = refl
first-append_none says (x ∷ xs) ys h = elim (Option-cases (says x)) [
  | inl e ↦
      first-skip says x (xs ++ ys) e
      ∙ first-append_none says xs ys (sym (first-skip says x xs e) ∙ h)
  | inr (a, e) ↦ cc (first-hit says x xs e)
]

first-append_some :
    {A : Type 0} (says : Bytes → Option A) (xs ys : List Bytes) {a : A}
    → first says xs ≡ some a
    → first says (xs ++ ys) ≡ some a
first-append_some says [] ys h = unfold first in cc
first-append_some says (x ∷ xs) ys h = elim (Option-cases (says x)) [
  | inl e ↦
      first-skip says x (xs ++ ys) e
      ∙ first-append_some says xs ys (sym (first-skip says x xs e) ∙ h)
  | inr (b, e) ↦ first-hit says x (xs ++ ys) e ∙ (sym (first-hit says x xs e) ∙ h)
]

first-map :
    {A : Type 0} (says : Bytes → Option A) (f : Bytes → Bytes)
    → ((line : Bytes) → says (f line) ≡ says line)
    → (ls : List Bytes) → first says (map f ls) ≡ first says ls
first-map says f h [] = unfold first in refl
first-map says f h (l ∷ ls) = elim (Option-cases (says l)) [
  | inl e ↦
      first-skip says (f l) (map f ls) (h l ∙ e)
      ∙ (first-map says f h ls ∙ sym (first-skip says l ls e))
  | inr (a, e) ↦ first-hit says (f l) (map f ls) (h l ∙ e) ∙ sym (first-hit says l ls e)
]

first-append_quiet :
    {A : Type 0} (says : Bytes → Option A) (xs ys : List Bytes)
    → first says ys ≡ none
    → first says (xs ++ ys) ≡ first says xs
first-append_quiet says xs ys q = elim (Option-cases (first says xs)) [
  | inl e ↦ first-append_none says xs ys e ∙ (q ∙ sym e)
  | inr (a, e) ↦ first-append_some says xs ys e ∙ sym e
]

-- A line that a reader for another key passes over.
has_key-split : (key line : Bytes) → has_key key line ≡ true → (rest : Bytes) × (line ≡ key ++ rest)
has_key-split key line h = elim (Option-cases (after_prefix key line)) [
  | inl e ↦ cc
  | inr (rest, e) ↦ (rest, append-after_prefix key line rest e)
]

no_resolution :
    (line : Bytes) → has_key (codes "resolution=") line ≡ false → says_resolution line ≡ none
no_resolution line h = elim (Option-cases (says_resolution line)) [ inl e ↦ e | inr (rest, e) ↦ cc ]

resolution_of_dark :
    (line : Bytes) → has_key (codes "dark=") line ≡ true → says_resolution line ≡ none
unfolding after_prefix
resolution_of_dark line h = let (rest, e) = has_key-split (codes "dark=") line h in rw e refl

resolution_of_dark_line : (dark : Bool) → says_resolution (dark_line dark) ≡ none
unfolding after_prefix
resolution_of_dark_line true = refl
resolution_of_dark_line false = refl

resolution_of_scale : (rest : Bytes) → says_resolution (codes "scale=" ++ rest) ≡ none
unfolding after_prefix
resolution_of_scale rest = refl

dark_of_resolution : (rest : Bytes) → says_dark (codes "resolution=" ++ rest) ≡ none
unfolding equal
dark_of_resolution rest = refl

dark_of_scale : (rest : Bytes) → says_dark (codes "scale=" ++ rest) ≡ none
unfolding equal
dark_of_scale rest = refl

-- An edit that makes every line with a key say `a`, where no other line says anything.
first-edited :
    {A : Type 0} (says : Bytes → Option A) (key : Bytes) (f : Bytes → Bytes) (a : A)
    → ((line : Bytes) → has_key key line ≡ true → says (f line) ≡ some a)
    → ((line : Bytes) → has_key key line ≡ false → says (f line) ≡ none)
    → (ls : List Bytes) → first says (map f ls) ≡ (if any_key key ls then some a else none)
unfolding first any_key
first-edited says key f a p n [] = refl
first-edited says key f a p n (l ∷ ls) = elim (Bool-cases (has_key key l)) [
  | inl e ↦ rw (e, p l e) refl
  | inr e ↦ rw (e, n l e) (first-edited says key f a p n ls)
]

-- What the line behind the loop says, when the loop found no line with the key.
first-saved :
    {A : Type 0} (says : Bytes → Option A) (found : Bool) (edited more : List Bytes) (line : Bytes)
    (a : A)
    → first says edited ≡ (if found then some a else none)
    → says line ≡ some a
    → first says (edited ++ ((if found then [] else line ∷ []) ++ more)) ≡ some a
first-saved says true edited more line a h s = first-append_some says edited _ h
first-saved says false edited more line a h s =
    first-append_none says edited _ h ∙ first-hit says line more s

first-saved_last :
    {A : Type 0} (says : Bytes → Option A) (found : Bool) (edited : List Bytes) (line : Bytes)
    (a : A)
    → first says edited ≡ (if found then some a else none)
    → says line ≡ some a
    → first says (edited ++ (if found then [] else line ∷ [])) ≡ some a
first-saved_last says true edited line a h s = first-append_some says edited [] h
first-saved_last says false edited line a h s =
    first-append_none says edited (line ∷ []) h ∙ first-hit says line [] s

unsaid :
    {A : Type 0} (says : Bytes → Option A) (found : Bool) (line : Bytes)
    → says line ≡ none
    → first says (if found then [] else line ∷ []) ≡ none
unsaid says true line e = unfold first in refl
unsaid says false line e = first-skip says line [] e ∙ (unfold first in refl)

no_dark : (line : Bytes) → has_key (codes "dark=") line ≡ false → says_dark line ≡ none
unfolding after_prefix
no_dark line h = elim (Bool-cases (equal line (codes "dark=1"))) [
  | inl e ↦ cc (rw ((equal_iff line (codes "dark=1")).0 e) at h)
  | inr e ↦ elim (Bool-cases (equal line (codes "dark=0"))) [
    | inl f ↦ cc (rw ((equal_iff line (codes "dark=0")).0 f) at h)
    | inr f ↦ rw (e, f) refl
  ]
]

says_dark-dark_line : (dark : Bool) → says_dark (dark_line dark) ≡ some dark
unfolding equal
says_dark-dark_line true = refl
says_dark-dark_line false = refl

pub first-replace_dark :
    (dark : Bool) (old : List Bytes) → first says_dark (replace_dark dark old) ≡ some dark
unfolding replace_dark
first-replace_dark dark old =
    first-saved_last says_dark (any_key (codes "dark=") old) _ (dark_line dark) dark
      (first-edited says_dark (codes "dark=") _ dark (λ line h. rw h (says_dark-dark_line dark))
        (λ line h. rw h (no_dark line h)) old)
      (says_dark-dark_line dark)

-- An edit that changes no line that says something.
pub first-replace_dark_resolution :
    (dark : Bool) (old : List Bytes)
    → first says_resolution (replace_dark dark old) ≡ first says_resolution old
unfolding replace_dark
first-replace_dark_resolution dark old =
    first-append_quiet says_resolution _ _ (
      unsaid says_resolution (any_key (codes "dark=") old) (dark_line dark)
        (resolution_of_dark_line dark))
    ∙ first-map says_resolution _
        (λ line. elim (Bool-cases (has_key (codes "dark=") line)) [
          | inl e ↦ rw e (resolution_of_dark_line dark ∙ sym (resolution_of_dark line e))
          | inr e ↦ rw e refl
        ])
        old

resolution_else :
    (scale line : Bytes)
    → has_key (codes "resolution=") line ≡ false
    → says_resolution (if has_key (codes "scale=") line then codes "scale=" ++ scale else line)
      ≡ none
resolution_else scale line h =
    if_both (λ x. says_resolution x ≡ none) (has_key (codes "scale=") line)
      (codes "scale=" ++ scale) line (resolution_of_scale scale) (no_resolution line h)

pub first-replace_display :
    (resolution scale : Bytes) (old : List Bytes)
    → first says_resolution (replace_display resolution scale old) ≡ some resolution
unfolding replace_display
first-replace_display resolution scale old =
    first-saved says_resolution (any_key (codes "resolution=") old) _ _
      (codes "resolution=" ++ resolution) resolution
      (first-edited says_resolution (codes "resolution=") _ resolution
        (λ line h. rw h (after_prefix-append (codes "resolution=") resolution))
        (λ line h. rw h (resolution_else scale line h)) old)
      (after_prefix-append (codes "resolution=") resolution)

dark_kept :
    (resolution scale line : Bytes)
    → says_dark (
        if has_key (codes "resolution=") line
        then codes "resolution=" ++ resolution
        else if has_key (codes "scale=") line
        then codes "scale=" ++ scale
        else line)
      ≡ says_dark line
dark_kept resolution scale line = elim (Bool-cases (has_key (codes "resolution=") line)) [
  | inl e ↦
      let (rest, p) = has_key-split (codes "resolution=") line e in
      rw e (dark_of_resolution resolution ∙ sym (ap says_dark p ∙ dark_of_resolution rest))
  | inr e ↦ elim (Bool-cases (has_key (codes "scale=") line)) [
    | inl f ↦
        let (rest, p) = has_key-split (codes "scale=") line f in
        rw (e, f) (dark_of_scale scale ∙ sym (ap says_dark p ∙ dark_of_scale rest))
    | inr f ↦ rw (e, f) refl
  ]
]

pub first-replace_display_dark :
    (resolution scale : Bytes) (old : List Bytes)
    → first says_dark (replace_display resolution scale old) ≡ first says_dark old
unfolding replace_display
first-replace_display_dark resolution scale old =
    first-append_quiet says_dark _ _ (
      first-append_quiet says_dark _ _ (
        unsaid says_dark (any_key (codes "scale=") old) (codes "scale=" ++ scale)
          (dark_of_scale scale))
      ∙ unsaid says_dark (any_key (codes "resolution=") old) (codes "resolution=" ++ resolution)
          (dark_of_resolution resolution))
    ∙ first-map says_dark _ (dark_kept resolution scale) old
