-- ===== src/FilesApp/Sorting.antt =====
-- The order of the entries in apps/files/main.cpp.
use mathlib.Core.List.{Perm}
use mathlib.Core.List.Perm
use finn_os.Base.{
  ◌≡◌, refl, Bool, true, false, not, ◌&&◌, List, [], ◌∷◌, arith, Bool-cases, inl, inr, &&-true,
}
use finn_os.Text.Raw.{Bytes}
use finn_os.FilesApp.{Entry, less, before, insert, sort}

-- No entry stands before one that belongs before it.
unfoldable pub sorted : List Entry → Bool
unfolding before
sorted [] = true
sorted (x ∷ []) = true
sorted (x ∷ (y ∷ ys)) = not (before y x) && sorted (y ∷ ys)

less_asym : (a b : Bytes) → less a b ≡ true → less b a ≡ false
unfolding less
less_asym [] [] h = refl
less_asym [] (d ∷ ds) h = refl
less_asym (c ∷ cs) [] h = ground arith
less_asym (c ∷ cs) (d ∷ ds) h = let rest = less_asym cs ds in ground arith

before_asym : (a b : Entry) → before a b ≡ true → before b a ≡ false
unfolding before
before_asym a b h = let names = less_asym a.name b.name in ground arith

insert-sorted : (e : Entry) (xs : List Entry) → sorted xs ≡ true → sorted (insert e xs) ≡ true
unfolding sorted insert
insert-sorted e [] h = refl
insert-sorted e (x ∷ []) h = let other = before_asym e x in ground arith
insert-sorted e (x ∷ (y ∷ ys)) h =
    let parts = &&-true (not (before y x)) (sorted (y ∷ ys)) h in
    let rest = insert-sorted e (y ∷ ys) parts.1 in let other = before_asym e x in ground arith

pub sort-sorted : (xs : List Entry) → sorted (sort xs) ≡ true
unfolding sort sorted
sort-sorted [] = refl
sort-sorted (x ∷ xs) = insert-sorted x (sort xs) (sort-sorted xs)

insert-Perm : (e : Entry) (xs : List Entry) → Perm (insert e xs) (e ∷ xs)
unfolding insert
insert-Perm e [] = Perm.refl (e ∷ [])
insert-Perm e (x ∷ xs) = elim (Bool-cases (before e x)) [
  | inl h ↦ rw h (Perm.refl (e ∷ (x ∷ xs)))
  | inr h ↦ rw h (Perm.trans (Perm.cons x (insert-Perm e xs)) (Perm.swap e x xs))
]

pub sort-Perm : (xs : List Entry) → Perm (sort xs) xs
unfolding sort
sort-Perm [] = Perm.refl []
sort-Perm (x ∷ xs) = Perm.trans (insert-Perm x (sort xs)) (Perm.cons x (sort-Perm xs))
