-- ===== src/Text/Raw.antt =====
-- A string is the list of its bytes.
use Prim.Native.Char.{code}
use Prim.Native.String.{String}
use finn_os.Base.{
  ℕ, ◌≡◌, ◌≢◌, refl, ◌↔◌, Bool, true, false, ◌&&◌, Option, none, some, List, [], ◌∷◌, ◌++◌, arith,
  is_empty, ◌==◌, All, if◌then◌else◌,
}

abbrev pub Bytes : Type 0
Bytes = List ℕ

-- The bytes of an ASCII literal.
abbrev pub codes : String → Bytes
codes String.[] = []
codes (String.◌∷◌ c s) = code c ∷ codes s

-- `==` on strings.
unfoldable pub equal : Bytes → Bytes → Bool
equal [] text = is_empty text
equal (c ∷ cs) [] = false
equal (c ∷ cs) (d ∷ ds) = c == d && equal cs ds

pub equal_iff : (s t : Bytes) → (equal s t ≡ true) ↔ (s ≡ t)
unfolding equal
equal_iff [] [] = ground arith
equal_iff [] (d ∷ ds) = ground arith
equal_iff (c ∷ cs) [] = ground arith
equal_iff (c ∷ cs) (d ∷ ds) = ground (arith, equal_iff cs ds)

pub equal_refl : (a : Bytes) → equal a a ≡ true
equal_refl a = (equal_iff a a).1 refl

pub equal_sym : (a b : Bytes) → equal a b ≡ equal b a
unfolding equal
equal_sym (x ∷ a) (y ∷ b) = ground (arith, equal_sym a b)
equal_sym [] [] = refl
equal_sym [] (y ∷ b) = refl
equal_sym (x ∷ a) [] = refl

-- What follows `prefix` in `text`, when `text` begins with it: `rfind(prefix, 0) == 0`, `substr`.
unfoldable pub after_prefix : Bytes → Bytes → Option Bytes
after_prefix [] text = some text
after_prefix (p ∷ ps) [] = none
after_prefix (p ∷ ps) (c ∷ cs) = let rest = after_prefix ps cs in if p == c then rest else none

pub after_prefix-append : (p s : Bytes) → after_prefix p (p ++ s) ≡ some s
unfolding after_prefix
after_prefix-append [] s = refl
after_prefix-append (c ∷ p) s = ground (arith, after_prefix-append p s)

pub append-after_prefix : (p s r : Bytes) → after_prefix p s ≡ some r → s ≡ p ++ r
unfolding after_prefix
append-after_prefix [] s r e = ground arith
append-after_prefix (c ∷ p) [] r e = ground arith
append-after_prefix (c ∷ p) (d ∷ s) r e = ground (arith, append-after_prefix p s r)

-- The byte `c` does not occur.
abbrev pub Without : ℕ → Bytes → Type 0
Without c = All (λ b. b ≢ c)
