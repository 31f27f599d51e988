-- ===== src/Text/Split.antt =====
-- `find` with `substr` at one separator, and `split` of src/session/client.cpp.
use finn_os.Base.{
  ℕ, suc, ◌+◌, ◌≡◌, refl, Option, none, some, List, [], ◌∷◌, ◌++◌, arith, ◌==◌, All, length,
  if◌then◌else◌, Bool-cases, inl, inr,
}
use finn_os.Text.Raw.{Bytes, Without}

-- The text before the first `sep`, and the text behind it when there is one.
unfoldable pub cut : ℕ → Bytes → Bytes × Option Bytes
cut sep [] = ([], none)
cut sep (c ∷ cs) =
    let (before, rest) = cut sep cs in if c == sep then ([], some cs) else (c ∷ before, rest)

pub cut-none : (sep : ℕ) (s : Bytes) → Without sep s → cut sep s ≡ (s, none)
unfolding cut
cut-none sep [] h = refl
cut-none sep (c ∷ s) h = ground (arith, cut-none sep s, h.0)

pub cut-some :
    (sep : ℕ) (s rest : Bytes) → Without sep s → cut sep (s ++ (sep ∷ rest)) ≡ (s, some rest)
unfolding cut
cut-some sep [] rest h = ground arith
cut-some sep (c ∷ s) rest h = ground (arith, cut-some sep s rest, h.0)

abbrev or_nil : Option Bytes → Bytes
or_nil none = []
or_nil (some s) = s

pub cut-Without : (sep : ℕ) (s : Bytes) → Without sep (cut sep s).0
unfolding cut
cut-Without sep [] = tt
cut-Without sep (c ∷ s) = elim (Bool-cases (c == sep)) [
  | inl e ↦ rw e tt
  | inr e ↦ rw e ((λ p. ground arith), cut-Without sep s)
]

-- Both parts hold only bytes of the text.
module _ (P : ℕ → Type 0) (sep : ℕ) where
  pub cut-All : (s : Bytes) → All P s → All P (cut sep s).0 × All P (or_nil (cut sep s).1)
  unfolding cut
  cut-All [] h = (tt, tt)
  cut-All (c ∷ s) h = elim (Bool-cases (c == sep)) [
    | inl e ↦ rw e (tt, h.1)
    | inr e ↦ rw e ((h.0, (cut-All s h.1).0), (cut-All s h.1).1)
  ]

-- The length that a separator takes.
abbrev room : Option Bytes → ℕ
room none = 0
room (some s) = suc (length s)

pub length-cut : (sep : ℕ) (s : Bytes) → length (cut sep s).0 + room (cut sep s).1 ≡ length s
unfolding cut
length-cut sep [] = omega arith
length-cut sep (c ∷ s) = ground (arith, length-cut sep s)

-- `c` goes in front of the first piece.
abbrev pub prepend : ℕ → List Bytes → List Bytes
prepend c [] = (c ∷ []) ∷ []
prepend c (s ∷ ss) = (c ∷ s) ∷ ss

-- Every piece between separators, the last one also when it is empty.
unfoldable pub split : Bytes → ℕ → List Bytes
split [] separator = [] ∷ []
split (c ∷ cs) separator =
    let fields = split cs separator in if c == separator then [] ∷ fields else prepend c fields

pub split_some :
    (s rest : Bytes) (sep : ℕ) → Without sep s → split (s ++ (sep ∷ rest)) sep ≡ s ∷ split rest sep
unfolding split
split_some [] rest sep h = ground arith
split_some (c ∷ s) rest sep h = ground (arith, split_some s rest sep, h.0)

pub split_none : (s : Bytes) (sep : ℕ) → Without sep s → split s sep ≡ s ∷ []
unfolding split
split_none [] sep h = refl
split_none (c ∷ s) sep h = ground (arith, split_none s sep, h.0)

-- What a C function sees of a string: the bytes before the first NUL.
unfoldable pub c_str : Bytes → Bytes
unfolding cut
c_str s = (cut 0 s).0
