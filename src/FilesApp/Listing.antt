-- ===== src/FilesApp/Listing.antt =====
-- What the list of apps/files/main.cpp shows of a folder.
use mathlib.Core.List.{Perm}
use finn_os.Base.{
  ℕ, ◌<◌, ◌≡◌, ◌≢◌, ◌⊎◌, inl, inr, refl, ap, Bool, true, false, not, Option, none, some, List, [],
  ◌∷◌, ◌++◌, arith, ◌==◌, ltb, if◌then◌else◌, Bool-cases, &&-true, subst, sym, ◌∙◌,
}
use finn_os.Text.Raw.{Bytes, codes}
use finn_os.FilesApp.{Entry, Disk, Browser, less, before, visible, fill, refresh, is_hidden}
use finn_os.FilesApp.Sorting.{sorted, sort-sorted, sort-Perm}

-- The first text is not above the second, byte by byte.
pub data Upto : Bytes → Bytes → Type 0 where
  ends : {ds : Bytes} → Upto [] ds
  below : {c d : ℕ} {cs ds : Bytes} → c < d → Upto (c ∷ cs) (d ∷ ds)
  same : {c : ℕ} {cs ds : Bytes} → Upto cs ds → Upto (c ∷ cs) (c ∷ ds)

-- Two entries of the list: a folder and then a file, or two of a kind by their names.
abbrev pub Follows : Entry → Entry → Type 0
Follows x y =
    ((x.directory ≡ true) × (y.directory ≡ false))
    ⊎ ((x.directory ≡ y.directory) × Upto x.name y.name)

-- Each entry and the one behind it.
abbrev pub IsOrdered : List Entry → Type 0
IsOrdered [] = Unit
IsOrdered (x ∷ []) = Unit
IsOrdered (x ∷ (y ∷ ys)) = Follows x y × IsOrdered (y ∷ ys)

-- What of a folder's entries is to be seen: not those without a name or with a dot before it, and a
-- folder without its size.
pub data Seen : List Entry → List Entry → Type 0 where
  nothing : Seen [] []
  unnamed :
      {e : Entry} {items shown : List Entry}
      → e.name ≡ []
      → Seen items shown
      → Seen (e ∷ items) shown
  dotted :
      {e : Entry} {items shown : List Entry} (rest : Bytes)
      → e.name ≡ b'.' ∷ rest
      → Seen items shown
      → Seen (e ∷ items) shown
  folder :
      {e : Entry} {items shown : List Entry} (c : ℕ) (rest : Bytes)
      → e.name ≡ c ∷ rest
      → c ≢ b'.'
      → e.directory ≡ true
      → Seen items shown
      → Seen (e ∷ items) (record { name = e.name; directory = true; size = 0 } ∷ shown)
  file :
      {e : Entry} {items shown : List Entry} (c : ℕ) (rest : Bytes)
      → e.name ≡ c ∷ rest
      → c ≢ b'.'
      → e.directory ≡ false
      → Seen items shown
      → Seen (e ∷ items) (e ∷ shown)

-- The state of the list for a folder that can be read, or one that cannot.
pub data IsListed (b : Browser) : Option (List Entry) → Type 0 where
  unreadable :
      b.entries ≡ [] → b.error ≡ codes "Cannot read " ++ b.path → b.selected ≡ [] → IsListed b none
  listed :
      {items : List Entry} (shown : List Entry)
      → Seen items shown
      → Perm b.entries shown
      → IsOrdered b.entries
      → b.error ≡ []
      → b.selected ≡ []
      → IsListed b (some items)

Upto-less : (a b : Bytes) → less b a ≡ false → Upto a b
unfolding less
Upto-less [] ds h = ends
Upto-less (c ∷ cs) [] h = absurd (cc)
Upto-less (c ∷ cs) (d ∷ ds) h = elim (Bool-cases (ltb c d)) [
  | inl e ↦ below (ground arith)
  | inr e ↦
      let level : d ≡ c = ground arith in
      let rest : less ds cs ≡ false = ground arith in rw level (same (Upto-less cs ds rest))
]

Follows-before : (x y : Entry) → before y x ≡ false → Follows x y
unfolding before
Follows-before x y h = elim (Bool-cases x.directory) [
  | inl e ↦ elim (Bool-cases y.directory) [
    | inl f ↦ inr (ground arith, Upto-less x.name y.name (ground arith))
    | inr f ↦ inl (e, f)
  ]
  | inr e ↦ elim (Bool-cases y.directory) [
    | inl f ↦ absurd (ground arith)
    | inr f ↦ inr (ground arith, Upto-less x.name y.name (ground arith))
  ]
]

IsOrdered-sorted : (es : List Entry) → sorted es ≡ true → IsOrdered es
unfolding sorted
IsOrdered-sorted [] h = tt
IsOrdered-sorted (x ∷ []) h = tt
IsOrdered-sorted (x ∷ (y ∷ ys)) h =
    let parts = &&-true (not (before y x)) (sorted (y ∷ ys)) h in
    (Follows-before x y (ground arith), IsOrdered-sorted (y ∷ ys) parts.1)

visible-Seen : (items : List Entry) → Seen items (visible items)
unfolding visible
visible-Seen [] = nothing
visible-Seen (item ∷ items) = named item.name refl (visible-Seen items)
  where
    kept :
        (c : ℕ) (rest : Bytes)
        → item.name ≡ c ∷ rest
        → c ≢ b'.'
        → (d : Bool) → item.directory ≡ d
        → Seen items (visible items)
        → Seen (item ∷ items) ((if d then record item { size = 0 } else item) ∷ visible items)
    kept c rest e n true f h =
        subst {A = Bool}
          (λ d.
            Seen (item ∷ items)
              (record { name = item.name; directory = d; size = 0 } ∷ visible items))
          (sym f)
          (subst {A = Bool}
            (λ d.
              Seen (item ∷ items)
                (record { name = item.name; directory = true; size = 0 } ∷ visible items))
            f (folder c rest e n f h))
    kept c rest e n false f h = file c rest e n f h

    named :
        (name : Bytes)
        → item.name ≡ name
        → Seen items (visible items)
        → Seen (item ∷ items) (
            if is_hidden item.name
            then visible items
            else (if item.directory then record item { size = 0 } else item) ∷ visible items)
    named [] e h =
        subst {A = Bytes}
          (λ n. Seen (item ∷ items) (
            if is_hidden n
            then visible items
            else (if item.directory then record item { size = 0 } else item) ∷ visible items))
          (sym e) (unnamed e h)
    named (c ∷ rest) e h =
        subst {A = Bytes}
          (λ n. Seen (item ∷ items) (
            if is_hidden n
            then visible items
            else (if item.directory then record item { size = 0 } else item) ∷ visible items))
          (sym e)
          (elim (Bool-cases (c == b'.')) [
            | inl dot ↦
                let is_dot : c ≡ b'.' = ground arith in
                rw dot (dotted rest (e ∙ ap (λ d. d ∷ rest) is_dot) h)
            | inr dot ↦
                let no_dot : c ≢ b'.' = ground arith in
                rw dot (kept c rest e no_dot item.directory refl h)
          ])

fill-IsListed : (now : Option (List Entry)) (b : Browser) → IsListed (fill now b) now
unfolding fill
fill-IsListed none b = unreadable refl refl refl
fill-IsListed (some items) b =
    listed (visible items) (visible-Seen items) (sort-Perm (visible items))
      (IsOrdered-sorted _ (sort-sorted (visible items))) refl refl

-- A refresh shows the folder as it is on the disk: every entry whose name is not empty and does not
-- begin with a dot, each as often as it is there and a folder without a size, the folders before the
-- files and those of a kind in the order of their names, without an error; or no entry and a message
-- when it cannot be read. Nothing is selected.
pub refresh-IsListed : (disk : Disk) (b : Browser) → IsListed (refresh disk b) (disk.list b.path)
unfolding refresh
refresh-IsListed disk b = fill-IsListed (disk.list b.path) b
