-- ===== src/Text/Lines.antt =====
-- The lines that repeated `std::getline` takes from a file, a last one with no line feed included.
use finn_os.Base.{
  ℕ, ◌≡◌, ◌≢◌, refl, List, [], ◌∷◌, ◌++◌, arith, ◌==◌, All, if◌then◌else◌, Bool-cases, inl, inr,
}
use finn_os.Text.Raw.{Bytes, Without}
use finn_os.Text.Split.{prepend}

unfoldable pub lines : Bytes → List Bytes
lines [] = []
lines (c ∷ cs) = let rest = lines cs in if c == b'\n' then [] ∷ rest else prepend c rest

-- A file of whole lines.
unfoldable pub unlines : List Bytes → Bytes
unlines [] = []
unlines (l ∷ ls) = l ++ (b'\n' ∷ unlines ls)

pub lines_cons : (l rest : Bytes) → Without b'\n' l → lines (l ++ (b'\n' ∷ rest)) ≡ l ∷ lines rest
unfolding lines
lines_cons [] rest h = refl
lines_cons (c ∷ l) rest h = ground (arith, lines_cons l rest, h.0)

pub lines-unlines : (ls : List Bytes) → All (Without b'\n') ls → lines (unlines ls) ≡ ls
unfolding unlines
lines-unlines [] h = unfold lines in refl
lines-unlines (l ∷ ls) h = rw (lines_cons l (unlines ls) h.0) (rw (lines-unlines ls h.1))

prepend-Without :
    (c : ℕ) (ls : List Bytes)
    → c ≢ b'\n'
    → All (Without b'\n') ls
    → All (Without b'\n') (prepend c ls)
prepend-Without c [] n h = ((n, tt), tt)
prepend-Without c (l ∷ ls) n h = ((n, h.0), h.1)

pub lines-Without : (s : Bytes) → All (Without b'\n') (lines s)
unfolding lines
lines-Without [] = tt
lines-Without (c ∷ s) = elim (Bool-cases (c == b'\n')) [
  | inl e ↦ rw e (tt, lines-Without s)
  | inr e ↦ rw e (prepend-Without c (lines s) (λ p. ground arith) (lines-Without s))
]
