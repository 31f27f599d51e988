-- ===== src/Comp/Cycling.antt =====
-- The F1 shortcut of src/comp/server.cpp goes round the windows in the order in which they came.
use native.Mathlib.Nat.{mod-lt, mod-add-mod, mod-eq_of_lt, add-zero}
use finn_os.Base.{
  ℕ, zero, suc, ◌+◌, ◌%◌, ◌<◌, ◌≡◌, refl, sym, ap, subst, ◌∙◌, Bool, true, false, Option, none,
  some, List, [], ◌∷◌, arith, length, if_both, Bool-cases, inl, inr,
}
use finn_os.Comp.State.{Toplevel, Surface, window, panel, Server}
use finn_os.Comp.Windows.{has, update}
use finn_os.Comp.Focus.{
  is_window, activate, deactivate, focus, f1, next_index, index_of, id_at, handle_keybinding,
}

-- No two windows are one object.
abbrev pub Distinct : List Toplevel → Type 0
Distinct [] = Unit
Distinct (t ∷ ts) = (has t.id ts ≡ false) × Distinct ts

id_at-has : (n i : ℕ) (ts : List Toplevel) → id_at n ts ≡ some i → has i ts ≡ true
unfolding id_at has
id_at-has n i [] h = cc
id_at-has zero i (t ∷ ts) h = ground arith
id_at-has (suc n) i (t ∷ ts) h = ground (arith, id_at-has n i ts)

index_of-id_at :
    (n i : ℕ) (ts : List Toplevel)
    → Distinct ts
    → id_at n ts ≡ some i
    → index_of (some i) ts ≡ some n
unfolding id_at index_of
index_of-id_at n i [] d h = cc
index_of-id_at zero i (t ∷ ts) d h = ground arith
index_of-id_at (suc n) i (t ∷ ts) d h =
    ground (arith, index_of-id_at n i ts d.1, id_at-has n i ts h)

id_at-some : (n : ℕ) (ts : List Toplevel) → n < length ts → (i : ℕ) × (id_at n ts ≡ some i)
unfolding id_at
id_at-some n [] h = absurd (omega arith)
id_at-some zero (t ∷ ts) h = (t.id, refl)
id_at-some (suc n) (t ∷ ts) h = id_at-some n ts (omega arith)

-- The windows in their order.
pub ids : List Toplevel → List ℕ
ids [] = []
ids (t ∷ ts) = t.id ∷ ids ts

ids-update : (i : ℕ) (on : Bool) (ts : List Toplevel) → ids (update i (activate on) ts) ≡ ids ts
unfolding ids update
ids-update i on [] = refl
ids-update i on (t ∷ ts) = ground (arith, ids-update i on ts)

ids-deactivate :
    (o : Option Surface) (s : Server) → ids (deactivate o s).toplevels ≡ ids s.toplevels
unfolding deactivate
ids-deactivate none s = refl
ids-deactivate (some (window j)) s = ids-update j false s.toplevels
ids-deactivate (some (panel j)) s = refl

ids-focus : (i : ℕ) (s : Server) → ids (focus (some i) s).toplevels ≡ ids s.toplevels
unfolding focus
ids-focus i s =
    if_both {A = Server} (λ t. ids t.toplevels ≡ ids s.toplevels) (is_window s.keyboard_focus i) _ _
      refl
      (ids-update i true (deactivate s.keyboard_focus s).toplevels
        ∙ ids-deactivate s.keyboard_focus s)

-- What the order decides.
id_at-ids : (n : ℕ) (ts us : List Toplevel) → ids ts ≡ ids us → id_at n ts ≡ id_at n us
unfolding ids id_at
id_at-ids n [] [] e = refl
id_at-ids n [] (u ∷ us) e = absurd (cc)
id_at-ids n (t ∷ ts) [] e = absurd (cc)
id_at-ids zero (t ∷ ts) (u ∷ us) e = ap some (cc)
id_at-ids (suc n) (t ∷ ts) (u ∷ us) e = id_at-ids n ts us (cc)

length-ids : (ts us : List Toplevel) → ids ts ≡ ids us → length ts ≡ length us
unfolding ids
length-ids [] [] e = refl
length-ids [] (u ∷ us) e = absurd (cc)
length-ids (t ∷ ts) [] e = absurd (cc)
length-ids (t ∷ ts) (u ∷ us) e = ap suc (length-ids ts us (cc))

has-ids : (i : ℕ) (ts us : List Toplevel) → ids ts ≡ ids us → has i ts ≡ has i us
unfolding ids has
has-ids i [] [] e = refl
has-ids i [] (u ∷ us) e = absurd (cc)
has-ids i (t ∷ ts) [] e = absurd (cc)
has-ids i (t ∷ ts) (u ∷ us) e =
    let head : t.id ≡ u.id = cc in
    let tail : ids ts ≡ ids us = cc in rw head (rw (has-ids i ts us tail))

Distinct-ids : (ts us : List Toplevel) → ids ts ≡ ids us → Distinct us → Distinct ts
unfolding ids
Distinct-ids [] us e d = tt
Distinct-ids (t ∷ ts) [] e d = absurd (cc)
Distinct-ids (t ∷ ts) (u ∷ us) e d =
    let head : t.id ≡ u.id = cc in
    let tail : ids ts ≡ ids us = cc in
    (rw head (has-ids u.id ts us tail ∙ d.0), Distinct-ids ts us tail d.1)

-- The focused window is the one in place `n`, and it has the keyboard.
pub record IsAt (n : ℕ) (s : Server) : Type 0 where
  pub i : ℕ
  pub there : id_at n s.toplevels ≡ some i
  pub focused : s.focused ≡ some i
  pub owns : s.keyboard_focus ≡ some (window i)
  pub keyboard : s.has_keyboard ≡ true
  pub distinct : Distinct s.toplevels

abbrev pub press : Server → Server
press s = (handle_keybinding f1 s).0

abbrev pub presses : ℕ → Server → Server
presses zero s = s
presses (suc k) s = press (presses k s)

press_lem :
    (n j : ℕ) (s : Server)
    → IsAt n s
    → id_at ((n + 1) % length s.toplevels) s.toplevels ≡ some j
    → press s ≡ focus (some j) s
unfolding handle_keybinding
press_lem n j s a h =
    let found : index_of s.focused s.toplevels ≡ some n =
      ap (λ o. index_of o s.toplevels) a.focused
      ∙ index_of-id_at n a.i s.toplevels a.distinct a.there in
    ap (λ o. focus (id_at (next_index o (length s.toplevels)) s.toplevels) s) found
    ∙ ap (λ o. focus o s) h

deactivate_keyboard :
    (o : Option Surface) (s : Server) → (deactivate o s).has_keyboard ≡ s.has_keyboard
unfolding deactivate
deactivate_keyboard none s = refl
deactivate_keyboard (some (window j)) s = refl
deactivate_keyboard (some (panel j)) s = refl

owner_lem : (i j : ℕ) → is_window (some (window i)) j ≡ true → i ≡ j
owner_lem i j h = ground arith

focus-IsAt :
    (n m j : ℕ) (s : Server) → IsAt n s → id_at m s.toplevels ≡ some j → IsAt m (focus (some j) s)
focus-IsAt n m j s a h = elim (Bool-cases (is_window s.keyboard_focus j)) [
  | inl e ↦
      let same : a.i ≡ j = owner_lem a.i j (subst (λ o. is_window o j ≡ true) a.owns e) in
      let stays : focus (some j) s ≡ s = unfold focus in rw (e, focus) in
      rw stays (record {
        i = j;
        there = h;
        focused = a.focused ∙ ap some same;
        owns = a.owns ∙ ap (λ k. some (window k)) same;
        keyboard = a.keyboard;
        distinct = a.distinct;
      })
  | inr e ↦
      let kept = ids-focus j s in
      record {
        i = j;
        there = id_at-ids m _ s.toplevels kept ∙ h;
        focused = unfold focus in rw (e, focus);
        owns = unfold focus in rw (e, focus) (rw a.keyboard);
        keyboard =
            unfold focus in rw (e, focus) (deactivate_keyboard s.keyboard_focus s ∙ a.keyboard);
        distinct = Distinct-ids _ s.toplevels kept a.distinct;
      }
]

press-IsAt :
    (n : ℕ) (s : Server)
    → 0 < length s.toplevels
    → IsAt n s
    → IsAt ((n + 1) % length s.toplevels) (press s) × (ids (press s).toplevels ≡ ids s.toplevels)
press-IsAt n s p a =
    let (j, h) = id_at-some ((n + 1) % length s.toplevels) s.toplevels (mod-lt (n + 1) p) in
    rw (press_lem n j s a h) (focus-IsAt n ((n + 1) % length s.toplevels) j s a h, ids-focus j s)

-- Pressing Alt+F1 `k` times from the window in place `n` ends on the window in place `n + k`,
-- counted round the windows in the order in which they came, and the windows are the same ones in
-- the same order as before.
pub presses-IsAt :
    (k n : ℕ) (s : Server)
    → n < length s.toplevels
    → IsAt n s
    → IsAt ((n + k) % length s.toplevels) (presses k s)
      × (ids (presses k s).toplevels ≡ ids s.toplevels)
presses-IsAt zero n s l a = (
  subst (λ m. IsAt m s) (sym (ap (λ m. m % length s.toplevels) (add-zero n) ∙ mod-eq_of_lt l)) a,
  refl,
)
presses-IsAt (suc k) n s l a =
    let (b, e) = presses-IsAt k n s l a in
    let same = length-ids (presses k s).toplevels s.toplevels e in
    let (c, f) = press-IsAt ((n + k) % length s.toplevels) (presses k s) (omega (arith, same)) b in
    (
      subst (λ m. IsAt m (press (presses k s)))
          (ap (λ z. ((n + k) % length s.toplevels + 1) % z) same
            ∙ mod-add-mod (n + k) (length s.toplevels) 1
            ∙ ap (λ m. m % length s.toplevels) (omega arith))
          c,
      f ∙ e,
    )
