-- ===== src/Comp/Events.antt =====
-- The listeners of src/comp/server.cpp, as a function of the event and the state.
pub mod Invariant
pub mod Placing
pub mod Safety
use finn_os.Base.{
  ℕ, ◌≡◌, Bool, true, false, not, ◌&&◌, ◌||◌, Option, none, some, List, [], ◌∷◌, ◌++◌, ◌==◌,
  is_empty, if◌then◌else◌,
}
use finn_os.Base.Int.{ℤ, pos}
use finn_os.Comp.State.{Box, Toplevel, Layer, Output, Surface, window, panel, Edges, Server}
use finn_os.Comp.Windows.{has, has_layer, update, set_configured, IsAlive}
use finn_os.Comp.Focus.{
  points_to, cleared, is_window, focus, focus_layer, release_layer, remove_toplevel, remove_layer,
  reset_cursor_mode, KeySym, handle_syms,
}
use finn_os.Comp.Geometry.{
  add_toplevel, maximize, unmaximize, begin_interactive, no_edges, process_cursor_motion,
}
use finn_os.Comp.Animation.{begin_open_animation, animate_windows}

-- What the listeners are called with. A time is in milliseconds; `hit` is what `toplevel_at` finds
-- in the scene. The last three are what wlroots does by itself: a surface is destroyed, the
-- seat's keyboard goes, and a layer surface's configuration leaves a usable box.
pub data Event : Type 0 where
  new_toplevel : ℕ → Box → Event
  toplevel_map : ℕ → ℕ → Event
  toplevel_unmap : ℕ → Event
  toplevel_commit : ℕ → Bool → Event
  toplevel_destroy : ℕ → Event
  request_move : ℕ → Event
  request_resize : ℕ → Edges → Event
  request_maximize : ℕ → Bool → Bool → Event
  new_layer : ℕ → Bool → Event
  layer_map : ℕ → Bool → Bool → Event
  layer_commit : ℕ → Bool → Bool → Bool → Box → Event
  layer_destroy : ℕ → Event
  new_keyboard : Event
  keyboard_key : Bool → List KeySym → Event
  cursor_motion : ℤ → ℤ → Event
  cursor_button : Bool → Option ℕ → Event
  touch_down : Option ℕ → Event
  animation : ℕ → Event
  surface_destroyed : Surface → Event
  keyboard_gone : Event

-- `on_toplevel_unmap`.
unfoldable pub unmap : ℕ → Server → Server
unmap i s = record s {
  toplevels = update i (λ t. record t { opening = false }) s.toplevels;
  focused = cleared s.focused i;
}

-- `on_toplevel_commit`; the flag is `initial_commit`.
unfoldable pub commit : ℕ → Bool → Server → Server
commit i initial s =
    if initial
    then record s {
      toplevels = update i (λ t. record t { asked_w = pos 0; asked_h = pos 0 }) s.toplevels;
    }
    else s

-- `on_toplevel_request_maximize`; the flags are `initialized` and `requested.maximized`.
unfoldable pub maximize_request : ℕ → Bool → Bool → Server → Server
unfolding maximize unmaximize
maximize_request i initialized wanted s =
    if not initialized then s else if wanted then maximize i s else unmaximize i s

-- `add_layer`; the flag is that the surface comes with an output. Else it takes the first one,
-- and without any it is not added.
unfoldable pub add_layer : ℕ → Bool → Server → Server
add_layer i has_output s =
    if has_output || not (is_empty s.outputs)
    then record s { layers = s.layers ++ (record { id = i; configured = false } ∷ []) }
    else s

abbrev pub is_positive : Box → Bool
is_positive box =
    elim box.width [ ℤ.pos w ↦ not (w == 0) | ℤ.negsuc _ ↦ false ]
    && elim box.height [ ℤ.pos h ↦ not (h == 0) | ℤ.negsuc _ ↦ false ]

-- `configure_layer`, on the box that wlroots leaves usable.
unfoldable pub configure_layer : Box → Server → Server
configure_layer usable s = if is_positive usable then record s { usable = usable } else s

unfoldable pub is_configured : ℕ → List Layer → Bool
is_configured i [] = false
is_configured i (l ∷ ls) = let rest = is_configured i ls in if l.id == i then l.configured else rest

-- `on_layer_commit`; the flags are `initialized`, `mapped` and `keyboard_interactive != 0`.
unfoldable pub commit_layer : ℕ → Bool → Bool → Bool → Box → Server → Server
unfolding focus_layer release_layer configure_layer is_configured
commit_layer i initialized mapped interactive usable s =
    if not (is_configured i s.layers)
    then (if initialized
        then configure_layer usable (record s { layers = set_configured i s.layers })
        else s)
    else if not mapped
    then s
    else if interactive
    then focus_layer i mapped interactive s
    else release_layer i s

-- `on_keyboard_key`; the flag is that Alt is held and the key pressed. A key that is not handled
-- goes on to the seat, with its keyboard.
unfoldable pub key : Bool → List KeySym → Server → Server
unfolding handle_syms
key shortcut syms s =
    let (t, handled) = handle_syms syms s in
    if not shortcut
    then record s { has_keyboard = true }
    else if handled
    then t
    else record t { has_keyboard = true }

-- `on_cursor_button`.
unfoldable pub button : Bool → Option ℕ → Server → Server
unfolding focus reset_cursor_mode
button pressed hit s = if pressed then focus hit s else reset_cursor_mode s

abbrev same_surface : Surface → Surface → Bool
same_surface (window i) (window j) = i == j
same_surface (panel i) (panel j) = i == j
same_surface _ _ = false

abbrev forget_surface : Option Surface → Surface → Option Surface
forget_surface none gone = none
forget_surface (some surface) gone = if same_surface surface gone then none else some surface

unfoldable pub step : Event → Server → Server
step (new_toplevel i geometry) s = add_toplevel i geometry s
step (toplevel_map i now) s = focus (some i) (begin_open_animation i now s)
step (toplevel_unmap i) s = unmap i s
step (toplevel_commit i initial) s = commit i initial s
step (toplevel_destroy i) s = remove_toplevel i s
step (request_move i) s = begin_interactive i true no_edges s
step (request_resize i edges) s = begin_interactive i false edges s
step (request_maximize i initialized wanted) s = maximize_request i initialized wanted s
step (new_layer i has_output) s = add_layer i has_output s
step (layer_map i mapped interactive) s =
    if interactive then focus_layer i mapped interactive s else s
step (layer_commit i initialized mapped interactive usable) s =
    commit_layer i initialized mapped interactive usable s
step (layer_destroy i) s = remove_layer i s
step new_keyboard s = record s { has_keyboard = true }
step (keyboard_key shortcut syms) s = key shortcut syms s
step (cursor_motion x y) s = process_cursor_motion (record s { cursor_x = x; cursor_y = y })
step (cursor_button pressed hit) s = button pressed hit s
step (touch_down hit) s = focus hit s
step (animation now) s = (animate_windows now s).0
step (surface_destroyed gone) s = record s { keyboard_focus = forget_surface s.keyboard_focus gone }
step keyboard_gone s = record s { has_keyboard = false }

unfoldable pub run : List Event → Server → Server
run [] s = s
run (e ∷ es) s = run es (step e s)
