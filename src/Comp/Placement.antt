-- ===== src/Comp/Placement.antt =====
-- Maximising and moving windows, in src/comp/server.cpp.
use finn_os.Base.{
  ℕ, ◌+◌, ◌≤◌, ◌≡◌, refl, sym, ap, subst, ◌∙◌, Bool, true, false, Option, none, some, List, [], ◌∷◌,
  arith, ◌==◌, Bool-cases, inl, inr,
}
use finn_os.Base.Int.{ℤ, pos, ltb_ℤ, ◌+ℤ◌, ◌-ℤ◌, to_fixed, to_int, to_int-to_fixed, int_laws}
use finn_os.Comp.State.{Box, Toplevel, Surface, window, panel, Server}
use finn_os.Comp.Windows.{find, find_id, update, find-update}
use finn_os.Comp.Focus.{focus, deactivate, activate, is_window}
use finn_os.Comp.Geometry.{
  cascade_offset, maximized_box, fill, maximize, restore, unmaximize, begin_interactive, no_edges,
  process_cursor_motion,
}

-- Where a window stands and what it remembers: all but its activation.
record SamePlace (t u : Toplevel) : Type 0 where
  id : u.id ≡ t.id
  maximized : u.maximized ≡ t.maximized
  node_x : u.node_x ≡ t.node_x
  node_y : u.node_y ≡ t.node_y
  asked_w : u.asked_w ≡ t.asked_w
  asked_h : u.asked_h ≡ t.asked_h
  restore_x : u.restore_x ≡ t.restore_x
  restore_y : u.restore_y ≡ t.restore_y
  restore_w : u.restore_w ≡ t.restore_w
  restore_h : u.restore_h ≡ t.restore_h

SamePlace-refl : (t : Toplevel) → SamePlace t t
SamePlace-refl t = ground arith

SamePlace-trans : (t u v : Toplevel) → SamePlace t u → SamePlace u v → SamePlace t v
SamePlace-trans t u v p q = ground arith

-- The window `i` after a change of windows that only activates some.
abbrev Keeps : ℕ → Toplevel → List Toplevel → Type 0
Keeps i t ts = (u : Toplevel) × (find i ts ≡ some u) × SamePlace t u

update_activate :
    (i j : ℕ) (on : Bool) (ts : List Toplevel) (t : Toplevel)
    → find i ts ≡ some t
    → Keeps i t (update j (activate on) ts)
unfolding find update
update_activate i j on [] t h = absurd (ground arith)
update_activate i j on (x ∷ ts) t h = elim (Bool-cases (x.id == i)) [
  | inl e ↦ elim (Bool-cases (x.id == j)) [
    | inl f ↦ (activate on x, ground arith, ground arith)
    | inr f ↦ (x, ground arith, ground arith)
  ]
  | inr e ↦ let (u, g, p) = update_activate i j on ts t (ground arith) in (u, ground arith, p)
]

deactivate-Keeps :
    (i : ℕ) (o : Option Surface) (s : Server) (t : Toplevel)
    → find i s.toplevels ≡ some t
    → Keeps i t (deactivate o s).toplevels
unfolding deactivate
deactivate-Keeps i none s t h = (t, h, SamePlace-refl t)
deactivate-Keeps i (some (window j)) s t h = update_activate i j false s.toplevels t h
deactivate-Keeps i (some (panel j)) s t h = (t, h, SamePlace-refl t)

focus-Keeps :
    (i j : ℕ) (s : Server) (t : Toplevel)
    → find i s.toplevels ≡ some t
    → Keeps i t (focus (some j) s).toplevels
unfolding focus
focus-Keeps i j s t h = elim (Bool-cases (is_window s.keyboard_focus j)) [
  | inl e ↦ rw (e, focus) (t, h, SamePlace-refl t)
  | inr e ↦
      let (u, f, p) = deactivate-Keeps i s.keyboard_focus s t h in
      let (v, g, q) = update_activate i j true (deactivate s.keyboard_focus s).toplevels u f in
      rw (e, focus) (v, g, SamePlace-trans t u v p q)
]

maximize_place :
    (i : ℕ) (box : Box) (s : Server) (t : Toplevel)
    → find i s.toplevels ≡ some t
    → t.maximized ≡ false
    → maximized_box s ≡ some box
    → Keeps i (fill box t) (maximize i s).toplevels
unfolding maximize
maximize_place i box s t h m b =
    rw (h, maximize)
      (rw (m, maximize)
        (rw b (
          focus-Keeps i i (record s { toplevels = update i (fill box) s.toplevels }) (fill box t)
            (find-update i (fill box) s.toplevels t (unfold fill in λ u. refl) h))))

unmaximize_place :
    (i : ℕ) (s : Server) (t : Toplevel)
    → find i s.toplevels ≡ some t
    → t.maximized ≡ true
    → Keeps i (restore t) (unmaximize i s).toplevels
unfolding unmaximize
unmaximize_place i s t h m =
    rw (h, unmaximize)
      (rw (m, unmaximize)
        (focus-Keeps i i (record s { toplevels = update i restore s.toplevels }) (restore t)
          (find-update i restore s.toplevels t (unfold restore in λ u. refl) h)))

-- Maximising a window that is not maximised puts it onto the usable box (or the first output),
-- with that size asked for; unmaximising it then puts it back where it stood, and asks for the
-- size of its geometry when that is positive.
pub unmaximize-maximize :
    (i : ℕ) (box : Box) (s : Server) (t : Toplevel)
    → find i s.toplevels ≡ some t
    → t.maximized ≡ false
    → maximized_box s ≡ some box
    → (u : Toplevel) × (v : Toplevel) × (find i (maximize i s).toplevels ≡ some u)
      × ((u.node_x ≡ box.x)
          × (u.node_y ≡ box.y)
          × (u.asked_w ≡ box.width)
          × (u.asked_h ≡ box.height))
      × (find i (unmaximize i (maximize i s)).toplevels ≡ some v)
      × ((v.node_x ≡ t.node_x) × (v.node_y ≡ t.node_y) × (v.maximized ≡ false))
      × ((ltb_ℤ (pos 0) t.geometry.width ≡ true)
          → (ltb_ℤ (pos 0) t.geometry.height ≡ true)
          → (v.asked_w ≡ t.geometry.width) × (v.asked_h ≡ t.geometry.height))
unfolding fill restore
unmaximize-maximize i box s t h m b =
    let (u, f, p) = maximize_place i box s t h m b in
    let (v, g, q) = unmaximize_place i (maximize i s) u f p.maximized in
    (
      u,
      v,
      f,
      (p.node_x, p.node_y, p.asked_w, p.asked_h),
      g,
      (q.node_x ∙ p.restore_x, q.node_y ∙ p.restore_y, q.maximized),
      λ w k. (ground arith, ground arith),
    )

grab_shift : (c n d : ℤ) → to_int (c +ℤ to_fixed d -ℤ (c -ℤ to_fixed n)) ≡ n +ℤ d
grab_shift c n d = ap to_int shift ∙ to_int-to_fixed (n +ℤ d)
  where
    shift : c +ℤ to_fixed d -ℤ (c -ℤ to_fixed n) ≡ to_fixed (n +ℤ d)
    shift = omega int_laws

-- A window that is grabbed for a move and whose pointer then stands a whole number of units away
-- has moved by that number, wherever in the window the pointer was, and has kept its size.
move_follows :
    (i : ℕ) (s : Server) (t : Toplevel) (dx dy : ℤ)
    → find i s.toplevels ≡ some t
    → (u : Toplevel) × (find i
          (process_cursor_motion (record (begin_interactive i true no_edges s) {
            cursor_x = s.cursor_x +ℤ to_fixed dx;
            cursor_y = s.cursor_y +ℤ to_fixed dy;
          })).toplevels
        ≡ some u)
      × ((u.node_x ≡ t.node_x +ℤ dx) × (u.node_y ≡ t.node_y +ℤ dy))
      × ((u.asked_w ≡ t.asked_w) × (u.asked_h ≡ t.asked_h))
unfolding begin_interactive process_cursor_motion
move_follows i s t dx dy h =
    let x = to_int (s.cursor_x +ℤ to_fixed dx -ℤ (s.cursor_x -ℤ to_fixed t.node_x)) in
    let y = to_int (s.cursor_y +ℤ to_fixed dy -ℤ (s.cursor_y -ℤ to_fixed t.node_y)) in
    let moved : Toplevel → Toplevel = λ v. record v { node_x = x; node_y = y } in
    (
      moved t,
      rw (h, begin_interactive)
          (subst (λ j. find i (update j moved s.toplevels) ≡ some (moved t))
            (sym (find_id i s.toplevels h).0) (find-update i moved s.toplevels t (λ v. refl) h)),
      (grab_shift s.cursor_x t.node_x dx, grab_shift s.cursor_y t.node_y dy),
      (refl, refl),
    )

-- New windows cascade within 264 units of the corner, eight places in turn.
cascade_bounds :
    (count : ℕ)
    → (40 ≤ cascade_offset count)
      × (cascade_offset count ≤ 264)
      × (cascade_offset (count + 8) ≡ cascade_offset count)
unfolding cascade_offset
cascade_bounds count = (omega arith, omega arith, omega arith)
