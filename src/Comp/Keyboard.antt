-- ===== src/Comp/Keyboard.antt =====
-- Which window is active, and the F1 shortcut, in src/comp/server.cpp.
use finn_os.Base.{
  ℕ, ◌≡◌, ◌≢◌, refl, sym, subst, ◌∙◌, true, false, Option, none, some, List, [], ◌∷◌, arith, All,
  if◌then◌else◌, Bool-cases, inl, inr,
}
use finn_os.Comp.State.{Toplevel, Surface, window, panel, Server}
use finn_os.Comp.Windows.{find, update, find-update}
use finn_os.Comp.Focus.{raise_to_top, is_window, activate, deactivate, focus}

-- Every active window is the one with the keyboard.
abbrev pub Owns : Option Surface → Toplevel → Type 0
Owns o t = t.activated ≡ true → o ≡ some (window t.id)

abbrev AllOwn : Option Surface → List Toplevel → Type 0
AllOwn o = All (Owns o)

-- Once the owner is deactivated no window is active.
abbrev AllIdle : List Toplevel → Type 0
AllIdle = All (λ t. t.activated ≡ false)

idle_update :
    (j : ℕ) (ts : List Toplevel)
    → AllOwn (some (window j)) ts
    → AllIdle (update j (activate false) ts)
unfolding update
idle_update j [] h = tt
idle_update j (t ∷ ts) h = (ground (arith, h.0), idle_update j ts h.1)

idle_none : (ts : List Toplevel) → AllOwn none ts → AllIdle ts
idle_none [] h = tt
idle_none (t ∷ ts) h = (ground (arith, h.0), idle_none ts h.1)

idle_panel : (p : ℕ) (ts : List Toplevel) → AllOwn (some (panel p)) ts → AllIdle ts
idle_panel p [] h = tt
idle_panel p (t ∷ ts) h = (ground (arith, h.0), idle_panel p ts h.1)

deactivate-AllIdle :
    (o : Option Surface) (s : Server) → AllOwn o s.toplevels → AllIdle (deactivate o s).toplevels
unfolding deactivate
deactivate-AllIdle none s h = idle_none s.toplevels h
deactivate-AllIdle (some (window j)) s h = idle_update j s.toplevels h
deactivate-AllIdle (some (panel p)) s h = idle_panel p s.toplevels h

own_update :
    (i : ℕ) (ts : List Toplevel)
    → AllIdle ts
    → AllOwn (some (window i)) (update i (activate true) ts)
unfolding update
own_update i [] h = tt
own_update i (t ∷ ts) h = (λ a. ground (arith, h.0), own_update i ts h.1)

is_window_lem : (o : Option Surface) (i : ℕ) → is_window o i ≡ true → o ≡ some (window i)
is_window_lem none i h = cc
is_window_lem (some (window j)) i h = ground arith
is_window_lem (some (panel j)) i h = cc

-- With a keyboard on the seat `focus` never leaves two active windows: if every active window is
-- the one that has the keyboard, then so it is afterwards, and the keyboard is with the window
-- that was focused.
pub focus-AllOwn :
    (i : ℕ) (s : Server)
    → s.has_keyboard ≡ true
    → All (Owns s.keyboard_focus) s.toplevels
    → All (Owns (focus (some i) s).keyboard_focus) (focus (some i) s).toplevels
      × ((focus (some i) s).keyboard_focus ≡ some (window i))
unfolding focus
focus-AllOwn i s k h = elim (Bool-cases (is_window s.keyboard_focus i)) [
  | inl e ↦ rw (e, focus) (h, is_window_lem s.keyboard_focus i e)
  | inr e ↦
      let gained : (if s.has_keyboard then some (window i) else s.keyboard_focus)
          ≡ some (window i) =
        rw k in
      rw (e, focus)
        (
          subst
              (λ o.
                All (Owns o) (update i (activate true) (deactivate s.keyboard_focus s).toplevels))
              (sym gained)
              (own_update i (deactivate s.keyboard_focus s).toplevels
                (deactivate-AllIdle s.keyboard_focus s h)),
          gained,
        )
]

-- The defect beside it: with no keyboard on the seat nobody gets the keyboard, so the next `focus`
-- deactivates nobody, and both windows stay active.
two_active :
    (i j : ℕ) (s : Server)
    → s.has_keyboard ≡ false
    → s.keyboard_focus ≡ none
    → focus (some j) (focus (some i) s) ≡ record s {
      toplevels = update j (activate true) (update i (activate true) s.toplevels);
      focused = some j;
      last_focused = some j;
      focused_layer = none;
      stacking = raise_to_top j (raise_to_top i s.stacking);
    }
unfolding focus
two_active i j s k f = ground arith

activated_update :
    (i : ℕ) (ts : List Toplevel) (t : Toplevel)
    → find i ts ≡ some t
    → find i (update i (activate true) ts) ≡ some (activate true t)
activated_update i ts t h = find-update i (activate true) ts t (λ u. refl) h

find_other :
    (i j : ℕ) (ts : List Toplevel) → i ≢ j → find i (update j (activate true) ts) ≡ find i ts
unfolding find update
find_other i j [] n = refl
find_other i j (t ∷ ts) n = ground (arith, find_other i j ts n)

-- With no keyboard on the seat (a pointer or touch device alone), focusing one window and then
-- another leaves both active.
pub focus_leaves_two :
    (i j : ℕ) (s : Server) (t u : Toplevel)
    → s.has_keyboard ≡ false
    → s.keyboard_focus ≡ none
    → i ≢ j
    → find i s.toplevels ≡ some t
    → find j s.toplevels ≡ some u
    → (find i (focus (some j) (focus (some i) s)).toplevels ≡ some (activate true t))
      × (find j (focus (some j) (focus (some i) s)).toplevels ≡ some (activate true u))
focus_leaves_two i j s t u k f n h g = rw (two_active i j s k f) (
  find_other i j (update i (activate true) s.toplevels) n ∙ activated_update i s.toplevels t h,
  activated_update j (update i (activate true) s.toplevels) u
      (find_other j i s.toplevels (λ e. n (sym e)) ∙ g),
)
