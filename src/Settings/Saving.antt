-- ===== src/Settings/Saving.antt =====
-- What a save of the settings leaves on the disk.
use finn_os.Base.{
  ℕ, ◌≡◌, inl, inr, refl, ◌∙◌, Bool, true, false, Option, none, some, List, [], ◌∷◌, ◌++◌, map,
  arith, All, All-append, if◌then◌else◌, if_both, Bool-cases,
}
use finn_os.Text.Raw.{Bytes, codes, equal, equal_refl, Without}
use finn_os.Text.Lines.{unlines, lines-Without}
use finn_os.Registry.{Files}
use finn_os.Settings.{
  Answers, lines_of, dark_line, any_key, has_key, replace_dark, replace_display, put, save,
}

longer : (path : Bytes) (c : ℕ) (more : Bytes) → equal path (path ++ (c ∷ more)) ≡ false
unfolding equal
longer [] c more = refl
longer (d ∷ path) c more = ground (arith, longer path c more)

pub lines_of-Without : (text : Option Bytes) → All (Without b'\n') (lines_of text)
lines_of-Without none = tt
lines_of-Without (some text) = lines-Without text

put-beside :
    (path : Bytes) (text : Option Bytes) (files : Files)
    → put (path ++ codes ".tmp") text files path ≡ files path
put-beside path text files = rw (longer path b'.' (codes "tmp")) refl

put-same : (path : Bytes) (text : Option Bytes) (files : Files) → put path text files path ≡ text
put-same path text files = rw (equal_refl path) refl

-- A save that succeeds has put the edited lines under the name when they were flushed, and one that
-- fails has left what was there.
pub save_lem :
    (answers : Answers) (path : Bytes) (edit : List Bytes → List Bytes) (files : Files)
    → (answers.flushed ≡ true
        → (save answers path edit files).1 ≡ true
        → (save answers path edit files).0 path ≡ some (unlines (edit (lines_of (files path)))))
      × ((save answers path edit files).1 ≡ false
          → (save answers path edit files).0 path ≡ files path)
unfolding save
save_lem answers path edit files = elim (Bool-cases answers.directories) [
  | inr e ↦ rw e ((λ w h. cc), (λ h. refl))
  | inl e ↦ elim (Bool-cases answers.opened) [
    | inr f ↦ rw (e, f) ((λ w h. cc), (λ h. refl))
    | inl f ↦ elim (Bool-cases answers.stored) [
      | inr g ↦ rw (e, f, g) ((λ w h. cc), (λ h. put-beside path _ files))
      | inl g ↦ elim (Bool-cases answers.renamed) [
        | inr k ↦ rw (e, f, g, k) ((λ w h. cc), (λ h. put-beside path _ files))
        | inl k ↦
            rw (e, f, g, k)
              (
                (λ w h. put-beside path _ (put path _ files) ∙ put-same path _ files ∙ rw w refl),
                (λ h. cc),
              )
      ]
    ]
  ]
]

-- Another file is not touched.
pub save_other :
    (answers : Answers) (path other : Bytes) (edit : List Bytes → List Bytes) (files : Files)
    → equal other path ≡ false
    → equal other (path ++ codes ".tmp") ≡ false
    → (save answers path edit files).0 other ≡ files other
unfolding save
save_other answers path other edit files n m = ground arith

dark_line-Without : (dark : Bool) → Without b'\n' (dark_line dark)
dark_line-Without true = ground arith
dark_line-Without false = ground arith

All-map :
    (f : Bytes → Bytes)
    → ((l : Bytes) → Without b'\n' l → Without b'\n' (f l))
    → (old : List Bytes) → All (Without b'\n') old
    → All (Without b'\n') (map f old)
All-map f k [] h = tt
All-map f k (l ∷ ls) h = (k l h.0, All-map f k ls h.1)

All-last :
    (found : Bool) (line : Bytes)
    → Without b'\n' line
    → All (Without b'\n') (if found then [] else line ∷ [])
All-last true line h = tt
All-last false line h = (h, tt)

pub replace_display-Without :
    (resolution scale : Bytes)
    → Without b'\n' resolution
    → Without b'\n' scale
    → (old : List Bytes) → All (Without b'\n') old
    → All (Without b'\n') (replace_display resolution scale old)
unfolding replace_display
replace_display-Without resolution scale r s old h =
    All-append _ _ _
      (All-map _
        (λ l w.
          if_both (Without b'\n') (has_key (codes "resolution=") l) _ _
            (All-append _ (codes "resolution=") resolution (ground arith) r)
            (if_both (Without b'\n') (has_key (codes "scale=") l) _ _
              (All-append _ (codes "scale=") scale (ground arith) s) w))
        old h)
      (All-append _ _ _
        (All-last (any_key (codes "resolution=") old) (codes "resolution=" ++ resolution)
          (All-append _ (codes "resolution=") resolution (ground arith) r))
        (All-last (any_key (codes "scale=") old) (codes "scale=" ++ scale)
          (All-append _ (codes "scale=") scale (ground arith) s)))

pub replace_dark-Without :
    (dark : Bool) (old : List Bytes)
    → All (Without b'\n') old
    → All (Without b'\n') (replace_dark dark old)
unfolding replace_dark
replace_dark-Without dark old h =
    All-append _ _ _
      (All-map _
        (λ l w. if_both (Without b'\n') (has_key (codes "dark=") l) _ _ (dark_line-Without dark) w)
        old h)
      (All-last (any_key (codes "dark=") old) (dark_line dark) (dark_line-Without dark))
