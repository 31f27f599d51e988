-- ===== src/Comp/Events/Placing.antt =====
-- Maximising, moving, resizing and animating windows keep the pointers of the server sound.
use finn_os.Base.{
  ℕ, ◌≡◌, refl, ◌∙◌, Bool, true, not, Option, none, some, List, [], ◌∷◌, arith, if_both,
  Option-cases, inl, inr,
}
use finn_os.Comp.State.{Box, Toplevel, CursorMode, Edges, Server}
use finn_os.Comp.Windows.{find, find_id, has, update, IsAlive, KeepsId, has-update}
use finn_os.Comp.Geometry.{
  fill, restore, maximized_box, maximize, unmaximize, begin_interactive, process_cursor_move,
  process_cursor_resize, motion_in, process_cursor_motion,
}
use finn_os.Comp.Animation.{begin_open, animate_windows, animate_all, animate}
use finn_os.Comp.Events.Invariant.{IsSound, update-IsSound, focus-IsSound}

pub fill-KeepsId : (box : Box) → KeepsId (fill box)
unfolding fill
fill-KeepsId box t = refl

pub restore-KeepsId : KeepsId restore
unfolding restore
restore-KeepsId t = refl

pub maximize-IsSound : (i : ℕ) (s : Server) → IsSound s → IsSound (maximize i s)
unfolding maximize
maximize-IsSound i s h = elim (Option-cases (find i s.toplevels)) [
  | inl e ↦ rw (e, maximize) h
  | inr (t, e) ↦ elim (Option-cases (maximized_box s)) [
    | inl b ↦ rw (e, maximize) (if_both IsSound t.maximized _ _ h (rw b h))
    | inr (box, b) ↦
        rw (e, maximize)
          (if_both IsSound t.maximized _ _ h (
            rw b (
              focus-IsSound (some i) (record s { toplevels = update i (fill box) s.toplevels })
                (has-update i i (fill box) s.toplevels (fill-KeepsId box)
                  ∙ (find_id i s.toplevels e).1)
                (update-IsSound i (fill box) s (fill-KeepsId box) h))))
  ]
]

pub unmaximize-IsSound : (i : ℕ) (s : Server) → IsSound s → IsSound (unmaximize i s)
unfolding unmaximize
unmaximize-IsSound i s h = elim (Option-cases (find i s.toplevels)) [
  | inl e ↦ rw (e, unmaximize) h
  | inr (t, e) ↦
      rw (e, unmaximize)
        (if_both IsSound (not t.maximized) _ _ h (
          focus-IsSound (some i) (record s { toplevels = update i restore s.toplevels })
            (has-update i i restore s.toplevels restore-KeepsId ∙ (find_id i s.toplevels e).1)
            (update-IsSound i restore s restore-KeepsId h)))
]

pub begin_interactive-IsSound :
    (i : ℕ) (moving : Bool) (edges : Edges) (s : Server)
    → IsSound s
    → IsSound (begin_interactive i moving edges s)
unfolding begin_interactive
begin_interactive-IsSound i moving edges s h = elim (Option-cases (find i s.toplevels)) [
  | inl e ↦ rw (e, begin_interactive) h
  | inr (t, e) ↦
      let there : has t.id s.toplevels ≡ true =
        rw (find_id i s.toplevels e).0 (find_id i s.toplevels e).1 in
      rw (e, begin_interactive)
        (if_both IsSound moving _ _
          (record {
            focused_alive = h.focused_alive;
            last_alive = h.last_alive;
            grabbed_alive = there;
            layer_alive = h.layer_alive;
            grab_mode = λ p. cc;
          })
          (record {
            focused_alive = h.focused_alive;
            last_alive = h.last_alive;
            grabbed_alive = there;
            layer_alive = h.layer_alive;
            grab_mode = λ p. cc;
          }))
]

pub begin_open-KeepsId : (reduced : Bool) (now : ℕ) → KeepsId (begin_open reduced now)
unfolding begin_open
begin_open-KeepsId reduced now t = ground arith

pub animate-KeepsId : (now : ℕ) → KeepsId (animate now)
unfolding animate
animate-KeepsId now t = ground arith

has-animate_all : (now i : ℕ) (ts : List Toplevel) → has i (animate_all now ts) ≡ has i ts
unfolding has animate_all
has-animate_all now i [] = refl
has-animate_all now i (t ∷ ts) = rw (animate-KeepsId now t) (rw (has-animate_all now i ts))

IsAlive-animate_all :
    (now : ℕ) (o : Option ℕ) (ts : List Toplevel) → IsAlive o ts → IsAlive o (animate_all now ts)
IsAlive-animate_all now none ts h = tt
IsAlive-animate_all now (some i) ts h = rw (has-animate_all now i ts) h

pub animate_windows-IsSound : (now : ℕ) (s : Server) → IsSound s → IsSound (animate_windows now s).0
unfolding animate_windows
animate_windows-IsSound now s h = record {
  focused_alive = IsAlive-animate_all now s.focused s.toplevels h.focused_alive;
  last_alive = IsAlive-animate_all now s.last_focused s.toplevels h.last_alive;
  grabbed_alive = IsAlive-animate_all now s.grabbed s.toplevels h.grabbed_alive;
  layer_alive = h.layer_alive;
  grab_mode = h.grab_mode;
}

motion_in-IsSound : (mode : CursorMode) (s : Server) → IsSound s → IsSound (motion_in mode s)
unfolding process_cursor_move process_cursor_resize
motion_in-IsSound CursorMode.passthrough s h = h
motion_in-IsSound CursorMode.move s h = elim (Option-cases s.grabbed) [
  | inl e ↦ rw (e, process_cursor_move) h
  | inr (i, e) ↦ rw (e, process_cursor_move) (update-IsSound i _ s (λ t. refl) h)
]
motion_in-IsSound CursorMode.resize s h = elim (Option-cases s.grabbed) [
  | inl e ↦ rw (e, process_cursor_resize) h
  | inr (i, e) ↦ rw (e, process_cursor_resize) (update-IsSound i _ s (λ t. refl) h)
]

pub process_cursor_motion-IsSound : (s : Server) → IsSound s → IsSound (process_cursor_motion s)
unfolding process_cursor_motion
process_cursor_motion-IsSound s h = motion_in-IsSound s.cursor_mode s h
