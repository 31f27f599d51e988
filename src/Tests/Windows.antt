-- ===== src/Tests/Windows.antt =====
-- Runs of src/comp/server.cpp with two windows.
use finn_os.Base.{
  ◌⊎◌, inl, inr, ℕ, ◌≡◌, ◌⊎◌, refl, true, false, none, some, List, [], ◌∷◌, arith, All,
}
use finn_os.Base.Int.{pos, ◌+ℤ◌, ◌<ℤ◌, ltb_ℤ}
use finn_os.Comp.State.{Box, Toplevel, CursorMode, window, Edges, Server}
use finn_os.Comp.Windows.{find, has}
use finn_os.Comp.Focus.{focus, f1, activate, id_at}
use finn_os.Comp.Geometry.{maximize, unmaximize, maximized_box, no_edges, process_cursor_resize}
use finn_os.Comp.Animation.{animate_windows}
use finn_os.Comp.Events.{Event, toplevel_destroy, request_move, cursor_motion, keyboard_key, run}
use finn_os.Comp.Events.Invariant.{IsSound}
use finn_os.Comp.Events.Safety.{run-IsSound}
use finn_os.Comp.Placement.{unmaximize-maximize}
use finn_os.Comp.Resizing.{left_of, right_of, top_of, bottom_of, process_cursor_resize_lem}
use finn_os.Comp.Keyboard.{Owns, focus-AllOwn, focus_leaves_two}
use finn_os.Comp.Cycling.{IsAt, ids, presses, presses-IsAt}
use finn_os.Comp.Opening.{BeganBelow, AllTurned, AnyPending, IsOver, animate_windows_lem}

abbrev box : ℕ → ℕ → ℕ → ℕ → Box
box x y w h = record { x = pos x; y = pos y; width = pos w; height = pos h }

abbrev window_at : ℕ → ℕ → ℕ → Toplevel
window_at i x y = record {
  id = i;
  opened_once = true;
  opening = false;
  open_start_ms = 0;
  open_from_y = pos 0;
  open_to_y = pos 0;
  maximized = false;
  restore_x = pos 0;
  restore_y = pos 0;
  restore_w = pos 0;
  restore_h = pos 0;
  node_x = pos x;
  node_y = pos y;
  geometry = box 0 0 300 200;
  asked_w = pos 300;
  asked_h = pos 200;
  activated = false;
  shown_maximized = false;
}

abbrev one : Toplevel
one = window_at 1 72 72

abbrev two : Toplevel
two = window_at 2 104 104

-- A server with the two windows, of which the first has the keyboard.
abbrev server : Server
server = record {
  outputs = [];
  toplevels = activate true one ∷ two ∷ [];
  layers = [];
  focused = some 1;
  last_focused = some 1;
  focused_layer = none;
  cursor_mode = CursorMode.passthrough;
  grabbed = none;
  grab_x = pos 0;
  grab_y = pos 0;
  grab_gx = pos 0;
  grab_gy = pos 0;
  grab_gw = pos 0;
  grab_gh = pos 0;
  resize_edges = no_edges;
  usable = box 0 30 1280 700;
  reduced_motion = false;
  terminated = false;
  keyboard_focus = some (window 1);
  has_keyboard = true;
  cursor_x = pos 80;
  cursor_y = pos 80;
  stacking = 1 ∷ 2 ∷ [];
}

server-IsSound : IsSound server
unfolding has
server-IsSound = record {
  focused_alive = refl;
  last_alive = refl;
  grabbed_alive = tt;
  layer_alive = tt;
  grab_mode = λ h. refl;
}

abbrev closing : List Event
closing =
    request_move 1
    ∷ toplevel_destroy 1
    ∷ cursor_motion (pos 9) (pos 9)
    ∷ keyboard_key true (f1 ∷ [])
    ∷ []

run-IsSound_example : IsSound (run closing server)
run-IsSound_example = run-IsSound closing server (tt, (tt, (tt, (tt, tt)))) server-IsSound

unmaximize-maximize_example :
    (u : Toplevel) × (v : Toplevel) × (find 2 (maximize 2 server).toplevels ≡ some u)
    × ((u.node_x ≡ pos 0) × (u.node_y ≡ pos 30) × (u.asked_w ≡ pos 1280) × (u.asked_h ≡ pos 700))
    × (find 2 (unmaximize 2 (maximize 2 server)).toplevels ≡ some v)
    × ((v.node_x ≡ pos 104) × (v.node_y ≡ pos 104) × (v.maximized ≡ false))
    × ((ltb_ℤ (pos 0) (pos 300) ≡ true)
        → (ltb_ℤ (pos 0) (pos 200) ≡ true)
        → (v.asked_w ≡ pos 300) × (v.asked_h ≡ pos 200))
unfolding find maximized_box
unmaximize-maximize_example = unmaximize-maximize 2 (box 0 30 1280 700) server two refl refl refl

abbrev from_left : Edges
from_left = record { top = false; bottom = false; left = true; right = false }

-- The second window is dragged by its left border, with the pointer beyond its right one.
abbrev resizing : Server
resizing = record server {
  cursor_mode = CursorMode.resize;
  grabbed = some 2;
  grab_gx = pos 104;
  grab_gy = pos 104;
  grab_gw = pos 300;
  grab_gh = pos 200;
  resize_edges = from_left;
  cursor_x = pos 200000;
}

process_cursor_resize_lem_example :
    (u : Toplevel) × (find 2 (process_cursor_resize resizing).toplevels ≡ some u)
    × ((pos 0 <ℤ u.asked_w) × (pos 0 <ℤ u.asked_h))
    × ((true ≡ false → left_of u ≡ pos 104)
        × ((true ≡ true) ⊎ (false ≡ false) → right_of u ≡ pos 104 +ℤ pos 300))
    × ((false ≡ false → top_of u ≡ pos 104)
        × ((false ≡ true) ⊎ (false ≡ false) → bottom_of u ≡ pos 104 +ℤ pos 200))
unfolding find
process_cursor_resize_lem_example =
    process_cursor_resize_lem 2 resizing two refl refl (omega arith) (omega arith)

focus-AllOwn_example :
    All (Owns (focus (some 2) server).keyboard_focus) (focus (some 2) server).toplevels
    × ((focus (some 2) server).keyboard_focus ≡ some (window 2))
focus-AllOwn_example = focus-AllOwn 2 server refl ((λ h. refl), ((λ h. ground arith), tt))

abbrev no_keyboard : Server
no_keyboard = record server { has_keyboard = false; keyboard_focus = none }

focus_leaves_two_example :
    (find 1 (focus (some 2) (focus (some 1) no_keyboard)).toplevels ≡ some (activate true one))
    × (find 2 (focus (some 2) (focus (some 1) no_keyboard)).toplevels ≡ some (activate true two))
unfolding find
focus_leaves_two_example =
    focus_leaves_two 1 2 no_keyboard (activate true one) two refl refl (ground arith) refl refl

server-IsAt : IsAt 0 server
unfolding id_at has
server-IsAt = record {
  i = 1;
  there = refl;
  focused = refl;
  owns = refl;
  keyboard = refl;
  distinct = (refl, (refl, tt));
}

presses-IsAt_example :
    IsAt 1 (presses 3 server) × (ids (presses 3 server).toplevels ≡ ids server.toplevels)
presses-IsAt_example = presses-IsAt 3 0 server (omega arith) server-IsAt

abbrev opening : Toplevel
opening = record one {
  opening = true;
  open_start_ms = 1000;
  open_from_y = pos 86;
  open_to_y = pos 72;
}

began : BeganBelow opening
unfolding ◌+ℤ◌
began = inr refl

abbrev appearing : Server
appearing = record server { toplevels = opening ∷ two ∷ [] }

animate_windows_lem_example :
    AllTurned 1100 appearing.toplevels (animate_windows 1100 appearing).0.toplevels
    × ((((animate_windows 1100 appearing).1 ≡ true) × AnyPending 1100 appearing.toplevels)
        ⊎ (((animate_windows 1100 appearing).1 ≡ false) × All (IsOver 1100) appearing.toplevels))
animate_windows_lem_example = animate_windows_lem 1100 appearing (began, (inl refl, tt))
