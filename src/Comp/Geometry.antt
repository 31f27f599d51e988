-- ===== src/Comp/Geometry.antt =====
-- Where windows stand: `add_toplevel`, `maximize`, `unmaximize`, and the interactive move and
-- resize of src/comp/server.cpp.
use finn_os.Base.{
  ℕ, ◌+◌, ◌*◌, ◌%◌, Bool, true, false, not, ◌&&◌, ◌||◌, Option, none, some, List, [], ◌∷◌, ◌++◌,
  length, if◌then◌else◌,
}
use finn_os.Base.Int.{ℤ, pos, ◌+ℤ◌, ◌-ℤ◌, ltb_ℤ, leb_ℤ, to_fixed, to_int}
use finn_os.Comp.State.{Box, Toplevel, Output, CursorMode, Edges, Server}
use finn_os.Comp.Windows.{find, update}
use finn_os.Comp.Focus.{focus}

-- The cascade of new windows.
unfoldable pub cascade_offset : ℕ → ℕ
cascade_offset count = 40 + 32 * (count % 8)

unfoldable pub new_toplevel : ℕ → Box → ℕ → Toplevel
unfolding cascade_offset
new_toplevel i geometry count = record {
  id = i;
  opened_once = false;
  opening = false;
  open_start_ms = 0;
  open_from_y = pos 0;
  open_to_y = pos 0;
  maximized = false;
  restore_x = pos 0;
  restore_y = pos 0;
  restore_w = pos 0;
  restore_h = pos 0;
  node_x = pos (cascade_offset count);
  node_y = pos (cascade_offset count);
  geometry = geometry;
  asked_w = pos 0;
  asked_h = pos 0;
  activated = false;
  shown_maximized = false;
}

unfoldable pub add_toplevel : ℕ → Box → Server → Server
unfolding new_toplevel
add_toplevel i geometry s = record s {
  toplevels = s.toplevels ++ (new_toplevel i geometry (length s.toplevels) ∷ []);
  stacking = i ∷ s.stacking;
}

-- The place of a maximised window: the usable box, or all of the first output without one.
abbrev whole : List Output → Option Box
whole [] = none
whole (o ∷ _) = some (record { x = pos 0; y = pos 0; width = o.logical_w; height = o.logical_h })

unfoldable pub maximized_box : Server → Option Box
maximized_box s =
    if leb_ℤ s.usable.width (pos 0) || leb_ℤ s.usable.height (pos 0)
    then whole s.outputs
    else some s.usable

unfoldable pub fill : Box → Toplevel → Toplevel
fill box t = record t {
  restore_x = t.node_x;
  restore_y = t.node_y;
  restore_w = t.geometry.width;
  restore_h = t.geometry.height;
  maximized = true;
  opening = false;
  node_x = box.x;
  node_y = box.y;
  asked_w = box.width;
  asked_h = box.height;
  shown_maximized = true;
}

abbrev maximize_into : ℕ → Option Box → Server → Server
maximize_into i none s = s
maximize_into i (some box) s =
    focus (some i) (record s { toplevels = update i (fill box) s.toplevels })

unfoldable pub maximize : ℕ → Server → Server
unfolding maximized_box fill
maximize i s = elim (find i s.toplevels) [
  | none ↦ s
  | some t ↦ if t.maximized then s else maximize_into i (maximized_box s) s
]

unfoldable pub restore : Toplevel → Toplevel
restore t =
    let sized = ltb_ℤ (pos 0) t.restore_w && ltb_ℤ (pos 0) t.restore_h in
    record t {
      maximized = false;
      opening = false;
      node_x = t.restore_x;
      node_y = t.restore_y;
      asked_w = if sized then t.restore_w else t.asked_w;
      asked_h = if sized then t.restore_h else t.asked_h;
      shown_maximized = false;
    }

unfoldable pub unmaximize : ℕ → Server → Server
unfolding restore
unmaximize i s = elim (find i s.toplevels) [
  | none ↦ s
  | some t ↦
      if not t.maximized
      then s
      else focus (some i) (record s { toplevels = update i restore s.toplevels })
]

abbrev pub no_edges : Edges
no_edges = record { top = false; bottom = false; left = false; right = false }

-- Behind `begin_interactive` for a move: where in the window the pointer took it.
unfoldable pub grab_move : Toplevel → Server → Server
grab_move t s = record s {
  grabbed = some t.id;
  cursor_mode = CursorMode.move;
  grab_x = s.cursor_x -ℤ to_fixed t.node_x;
  grab_y = s.cursor_y -ℤ to_fixed t.node_y;
}

unfoldable pub grab_resize : Toplevel → Edges → Server → Server
grab_resize t edges s =
    let g = t.geometry in
    let border_x = t.node_x +ℤ g.x +ℤ (if edges.right then g.width else pos 0) in
    let border_y = t.node_y +ℤ g.y +ℤ (if edges.bottom then g.height else pos 0) in
    record s {
      grabbed = some t.id;
      cursor_mode = CursorMode.resize;
      grab_x = s.cursor_x -ℤ to_fixed border_x;
      grab_y = s.cursor_y -ℤ to_fixed border_y;
      grab_gx = g.x +ℤ t.node_x;
      grab_gy = g.y +ℤ t.node_y;
      grab_gw = g.width;
      grab_gh = g.height;
      resize_edges = edges;
    }

abbrev pub begin_on : Bool → Edges → Option Toplevel → Server → Server
begin_on moving edges none s = s
begin_on moving edges (some t) s = if moving then grab_move t s else grab_resize t edges s

-- The mode is a move or a resize.
unfoldable pub begin_interactive : ℕ → Bool → Edges → Server → Server
unfolding grab_move grab_resize
begin_interactive i moving edges s = begin_on moving edges (find i s.toplevels) s

-- The grabbed window's node is set to the pointer less the grab.
unfoldable pub process_cursor_move : Server → Server
process_cursor_move s = elim s.grabbed [
  | none ↦ s
  | some i ↦ record s {
    toplevels =
        update i
          (λ t. record t {
            node_x = to_int (s.cursor_x -ℤ s.grab_x);
            node_y = to_int (s.cursor_y -ℤ s.grab_y);
          })
          s.toplevels;
  }
]

-- One axis of a resize: the two ends, with the end that is dragged kept off the other one. The
-- flags say which end is dragged; the near one is tried first.
unfoldable pub drag : Bool → Bool → ℤ → ℤ → ℤ → ℤ × ℤ
drag near far border low high =
    if near
    then (if leb_ℤ high border then high -ℤ pos 1 else border, high)
    else if far
    then (low, if leb_ℤ border low then low +ℤ pos 1 else border)
    else (low, high)

abbrev pub resized : ℤ × ℤ → ℤ × ℤ → Toplevel → Toplevel
resized (left, right) (top, bottom) t = record t {
  node_x = left -ℤ t.geometry.x;
  node_y = top -ℤ t.geometry.y;
  asked_w = right -ℤ left;
  asked_h = bottom -ℤ top;
}

unfoldable pub horizontal : Server → ℤ × ℤ
unfolding drag
horizontal s =
    drag s.resize_edges.left s.resize_edges.right (to_int (s.cursor_x -ℤ s.grab_x)) s.grab_gx
      (s.grab_gx +ℤ s.grab_gw)

unfoldable pub vertical : Server → ℤ × ℤ
unfolding drag
vertical s =
    drag s.resize_edges.top s.resize_edges.bottom (to_int (s.cursor_y -ℤ s.grab_y)) s.grab_gy
      (s.grab_gy +ℤ s.grab_gh)

unfoldable pub process_cursor_resize : Server → Server
unfolding horizontal vertical
process_cursor_resize s = elim s.grabbed [
  | none ↦ s
  | some i ↦ record s { toplevels = update i (resized (horizontal s) (vertical s)) s.toplevels }
]

-- With no grab the motion goes to the surface below the pointer, which is the seat's affair.
abbrev pub motion_in : CursorMode → Server → Server
motion_in CursorMode.move s = process_cursor_move s
motion_in CursorMode.resize s = process_cursor_resize s
motion_in CursorMode.passthrough s = s

unfoldable pub process_cursor_motion : Server → Server
unfolding process_cursor_move process_cursor_resize
process_cursor_motion s = motion_in s.cursor_mode s
