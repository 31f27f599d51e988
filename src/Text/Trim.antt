-- ===== src/Text/Trim.antt =====
-- `trim` of src/session/app_registry.cpp.
use finn_os.Base.{
  ℕ, suc, ◌≡◌, ◌≢◌, ◌≤◌, refl, Bool, false, ◌&&◌, ◌||◌, [], ◌∷◌, ◌++◌, arith, ◌==◌, leb, All,
  length, if◌then◌else◌, Bool-cases, inl, inr,
}
use finn_os.Text.Raw.{Bytes}

-- `std::isspace` in the C locale: tab, line feed, vertical tab, form feed, return, space.
unfoldable pub is_space : ℕ → Bool
is_space c = c == b' ' || (leb 9 c && leb c 13)

-- The first loop of `trim`.
unfoldable pub trim_front : Bytes → Bytes
trim_front [] = []
trim_front (c ∷ cs) = let rest = trim_front cs in if is_space c then rest else c ∷ cs

-- The second loop: a byte goes when all behind it has gone and it is a space.
abbrev keep_unless : ℕ → Bytes → Bytes
keep_unless c [] = if is_space c then [] else c ∷ []
keep_unless c (d ∷ ds) = c ∷ d ∷ ds

unfoldable pub trim_back : Bytes → Bytes
trim_back [] = []
trim_back (c ∷ cs) = keep_unless c (trim_back cs)

unfoldable pub trim : Bytes → Bytes
unfolding trim_front trim_back is_space
trim text = trim_back (trim_front text)

-- No space at either end.
abbrev pub StartsSolid : Bytes → Type 0
StartsSolid [] = Unit
StartsSolid (c ∷ cs) = is_space c ≡ false

abbrev pub EndsSolid : Bytes → Type 0
EndsSolid [] = Unit
EndsSolid (c ∷ []) = is_space c ≡ false
EndsSolid (c ∷ d ∷ ds) = EndsSolid (d ∷ ds)

pub record IsTrimmed (s : Bytes) : Type 0 where
  pub front : StartsSolid s
  pub back : EndsSolid s

trim_front-solid : (s : Bytes) → StartsSolid (trim_front s)
unfolding trim_front
trim_front-solid [] = tt
trim_front-solid (c ∷ s) = ground (arith, trim_front-solid s)

keep_unless-front : (c : ℕ) (s : Bytes) → is_space c ≡ false → StartsSolid (keep_unless c s)
keep_unless-front c [] h = ground arith
keep_unless-front c (d ∷ s) h = h

keep_unless-back : (c : ℕ) (s : Bytes) → EndsSolid s → EndsSolid (keep_unless c s)
keep_unless-back c [] h = ground arith
keep_unless-back c (d ∷ s) h = h

trim_back-front : (s : Bytes) → StartsSolid s → StartsSolid (trim_back s)
unfolding trim_back
trim_back-front [] h = tt
trim_back-front (c ∷ s) h = keep_unless-front c (trim_back s) h

trim_back-back : (s : Bytes) → EndsSolid (trim_back s)
unfolding trim_back
trim_back-back [] = tt
trim_back-back (c ∷ s) = keep_unless-back c (trim_back s) (trim_back-back s)

pub trim-IsTrimmed : (s : Bytes) → IsTrimmed (trim s)
unfolding trim
trim-IsTrimmed s = record {
  front = trim_back-front (trim_front s) (trim_front-solid s);
  back = trim_back-back (trim_front s);
}

trim_back_fixed : (s : Bytes) → EndsSolid s → trim_back s ≡ s
unfolding trim_back
trim_back_fixed [] h = refl
trim_back_fixed (c ∷ []) h = ground arith
trim_back_fixed (c ∷ d ∷ s) h = ground (arith, trim_back_fixed (d ∷ s) h)

-- What has no space at its ends stays.
pub trim_fixed : (s : Bytes) → IsTrimmed s → trim s ≡ s
unfolding trim trim_front
trim_fixed [] h = refl
trim_fixed (c ∷ s) h = ground (arith, trim_back_fixed (c ∷ s) h.back, h.front)

module _ (P : ℕ → Type 0) where
  trim_front-All : (s : Bytes) → All P s → All P (trim_front s)
  unfolding trim_front
  trim_front-All [] h = tt
  trim_front-All (c ∷ s) h = elim (Bool-cases (is_space c)) [
    | inl e ↦ rw e (trim_front-All s h.1)
    | inr e ↦ rw e h
  ]

  keep_unless-All : (c : ℕ) (s : Bytes) → P c → All P s → All P (keep_unless c s)
  keep_unless-All c [] p h = elim (Bool-cases (is_space c)) [
    | inl e ↦ rw e tt
    | inr e ↦ rw e (p, tt)
  ]
  keep_unless-All c (d ∷ s) p h = (p, h)

  trim_back-All : (s : Bytes) → All P s → All P (trim_back s)
  unfolding trim_back
  trim_back-All [] h = tt
  trim_back-All (c ∷ s) h = keep_unless-All c (trim_back s) h.0 (trim_back-All s h.1)

  -- Trimming keeps only bytes of the text.
  pub trim-All : (s : Bytes) → All P s → All P (trim s)
  unfolding trim
  trim-All s h = trim_back-All (trim_front s) (trim_front-All s h)

length-trim_front : (s : Bytes) → length (trim_front s) ≤ length s
unfolding trim_front
length-trim_front [] = omega arith
length-trim_front (c ∷ s) = ground (arith, length-trim_front s)

length-keep_unless : (c : ℕ) (s : Bytes) → length (keep_unless c s) ≤ suc (length s)
length-keep_unless c [] = ground arith
length-keep_unless c (d ∷ s) = omega arith

length-trim_back : (s : Bytes) → length (trim_back s) ≤ length s
unfolding trim_back
length-trim_back [] = omega arith
length-trim_back (c ∷ s) = omega (arith, length-keep_unless c (trim_back s), length-trim_back s)

pub length-trim : (s : Bytes) → length (trim s) ≤ length s
unfolding trim
length-trim s = omega (arith, length-trim_front s, length-trim_back (trim_front s))

-- A text that ends in a byte which is no space.
pub record IsEnded (s : Bytes) : Type 0 where
  pub back : EndsSolid s
  pub ne_nil : s ≢ []

pub IsEnded-cons : (c : ℕ) (s : Bytes) → IsEnded s → IsEnded (c ∷ s)
IsEnded-cons c [] h = absurd (h.ne_nil refl)
IsEnded-cons c (d ∷ s) h = record { back = h.back; ne_nil = λ e. cc }

pub IsEnded-append : (p s : Bytes) → IsEnded s → IsEnded (p ++ s)
IsEnded-append [] s h = h
IsEnded-append (c ∷ p) s h = IsEnded-cons c (p ++ s) (IsEnded-append p s h)
