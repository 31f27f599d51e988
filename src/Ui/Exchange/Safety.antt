-- ===== src/Ui/Exchange/Safety.antt =====
-- Whether the client of src/ui/app.cpp writes only into buffers that the compositor is done with.
use finn_os.Base.{
  ℕ, suc, ◌≡◌, refl, subst, Bool, true, false, not, ◌&&◌, ◌||◌, some, List, [], ◌∷◌, ◌++◌, ◌==◌,
  ltb, arith, if◌then◌else◌, Bool-cases, inl, inr, &&-true,
}
use finn_os.Ui.State.{ShmBuffer}
use finn_os.Ui.Frames.{first_free, set_busy}
use finn_os.Ui.Quiet.{Core}
use finn_os.Ui.Exchange.Steps.{Moves, still, draws, clears, adds, resizes, ends}

-- Buffers are lists of numbers here: what the compositor holds, and what it is given.

unfoldable pub has : ℕ → List ℕ → Bool
has id [] = false
has id (x ∷ xs) = x == id || has id xs

unfoldable pub without : ℕ → List ℕ → List ℕ
without id [] = []
without id (x ∷ xs) = let rest = without id xs in if x == id then rest else x ∷ rest

-- What the compositor holds when it has been given buffers.
unfoldable pub taken_in : List ℕ → List ℕ → List ℕ
taken_in [] held = held
taken_in (id ∷ ids) held = taken_in ids (id ∷ held)

-- No buffer is given that the compositor holds at that moment.
unfoldable pub fair : List ℕ → List ℕ → Bool
unfolding has
fair [] held = true
fair (id ∷ ids) held = not (has id held) && fair ids (id ∷ held)

-- Every held buffer is one that was made.
unfoldable pub all_below : ℕ → List ℕ → Bool
all_below n [] = true
all_below n (x ∷ xs) = ltb x n && all_below n xs

-- Every buffer of the client was made, and is busy or not held.
unfoldable pub ready : ℕ → List ℕ → List ShmBuffer → Bool
unfolding has
ready n held [] = true
ready n held (b ∷ bs) = ltb b.id n && ((b.busy || not (has b.id held)) && ready n held bs)

has-without :
    (x id : ℕ) (xs : List ℕ) → has x (without id xs) ≡ (if x == id then false else has x xs)
unfolding has without
has-without x id [] = ground arith
has-without x id (y ∷ ys) = let rest = has-without x id ys in ground arith

pub all_below-without :
    (n id : ℕ) (xs : List ℕ) → all_below n xs ≡ true → all_below n (without id xs) ≡ true
unfolding all_below without
all_below-without n id [] h = refl
all_below-without n id (x ∷ xs) h =
    let rest = all_below-without n id xs (&&-true (ltb x n) (all_below n xs) h).1 in ground arith

all_below-suc : (n : ℕ) (xs : List ℕ) → all_below n xs ≡ true → all_below (suc n) xs ≡ true
unfolding all_below
all_below-suc n [] h = refl
all_below-suc n (x ∷ xs) h =
    let rest = all_below-suc n xs (&&-true (ltb x n) (all_below n xs) h).1 in ground arith

all_below-has : (n : ℕ) (xs : List ℕ) → all_below n xs ≡ true → has n xs ≡ false
unfolding all_below has
all_below-has n [] h = refl
all_below-has n (x ∷ xs) h =
    let rest = all_below-has n xs (&&-true (ltb x n) (all_below n xs) h).1 in ground arith

-- The parts of the head and the rest.
ready-cons :
    (n : ℕ) (held : List ℕ) (b : ShmBuffer) (bs : List ShmBuffer)
    → ready n held (b ∷ bs) ≡ true
    → (ltb b.id n ≡ true) × ((b.busy || not (has b.id held)) ≡ true) × (ready n held bs ≡ true)
unfolding ready
ready-cons n held b bs h =
    let parts = &&-true (ltb b.id n) ((b.busy || not (has b.id held)) && ready n held bs) h in
    let rest = &&-true (b.busy || not (has b.id held)) (ready n held bs) parts.1 in
    (parts.0, rest.0, rest.1)

ready-first_free :
    (n : ℕ) (held : List ℕ) (bs : List ShmBuffer) (target : ShmBuffer)
    → ready n held bs ≡ true
    → first_free bs ≡ some target
    → (ltb target.id n ≡ true) × (has target.id held ≡ false)
unfolding first_free
ready-first_free n held [] target h free = (ground arith, ground arith)
ready-first_free n held (b ∷ bs) target h free =
    let parts = ready-cons n held b bs h in
    elim (Bool-cases b.busy) [
      | inl e ↦
          ready-first_free n held bs target parts.2
            (subst (λ busy. (if busy then first_free bs else some b) ≡ some target) e free)
      | inr e ↦ (ground arith, ground arith)
    ]

ready-drawn :
    (n : ℕ) (held : List ℕ) (id : ℕ) (bs : List ShmBuffer)
    → ready n held bs ≡ true
    → ready n (id ∷ held) (set_busy id true bs) ≡ true
unfolding ready set_busy has
ready-drawn n held id [] h = refl
ready-drawn n held id (b ∷ bs) h =
    let parts = ready-cons n held b bs h in
    let rest = ready-drawn n held id bs parts.2 in ground arith

pub ready-freed :
    (n : ℕ) (held : List ℕ) (id : ℕ) (bs : List ShmBuffer)
    → ready n held bs ≡ true
    → ready n (without id held) (set_busy id false bs) ≡ true
unfolding ready set_busy
ready-freed n held id [] h = refl
ready-freed n held id (b ∷ bs) h =
    let parts = ready-cons n held b bs h in
    let rest = ready-freed n held id bs parts.2 in
    let left = has-without b.id id held in let left_id = has-without id id held in ground arith

ready-added :
    (n : ℕ) (held : List ℕ) (bytes : ℕ) (bs : List ShmBuffer)
    → all_below n held ≡ true
    → ready n held bs ≡ true
    → ready (suc n) held (bs ++ (record { id = n; bytes = bytes; busy = false } ∷ [])) ≡ true
unfolding ready
ready-added n held bytes [] below h = let new = all_below-has n held below in ground arith
ready-added n held bytes (b ∷ bs) below h =
    let parts = ready-cons n held b bs h in
    let rest = ready-added n held bytes bs below parts.2 in ground arith

-- What holds of the client and of what the compositor holds, between two events.
pub record IsSound (k : Core) (held : List ℕ) : Type 0 where
  pub made : all_below k.next_buffer held ≡ true
  pub unheld : ready k.next_buffer held k.buffers ≡ true

pub Moves-IsSound :
    {k l : Core} {given : List ℕ} (held : List ℕ)
    → Moves k given l
    → IsSound k held
    → (fair given held ≡ true) × IsSound l (taken_in given held)
unfolding fair taken_in ready all_below
Moves-IsSound held still h = (refl, h)
Moves-IsSound {k} held (draws {given = given} target input free p) h =
    let new = ready-first_free k.next_buffer held k.buffers target h.unheld free in
    let drawn_ready = ready-drawn k.next_buffer held target.id k.buffers h.unheld in
    let made = h.made in
    let rest =
      Moves-IsSound (target.id ∷ held) p (record { made = ground arith; unheld = drawn_ready }) in
    let fair_rest = rest.0 in (ground arith, rest.1)
Moves-IsSound held (clears p) h = Moves-IsSound held p (record { made = h.made; unheld = refl })
Moves-IsSound {k} held (adds bytes p) h = Moves-IsSound held p (record {
  made = all_below-suc k.next_buffer held h.made;
  unheld = ready-added k.next_buffer held bytes k.buffers h.made h.unheld;
})
Moves-IsSound held (resizes size configured p) h =
    Moves-IsSound held p (record { made = h.made; unheld = h.unheld })
Moves-IsSound held (ends unasked p) h =
    Moves-IsSound held p (record { made = h.made; unheld = h.unheld })
