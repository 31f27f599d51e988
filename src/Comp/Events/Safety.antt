-- ===== src/Comp/Events/Safety.antt =====
-- Every listener of src/comp/server.cpp keeps the pointers of the server sound.
use finn_os.Base.{
  ℕ, ◌≡◌, refl, ◌∙◌, Bool, true, false, not, ◌||◌, Option, none, some, List, [], ◌∷◌, ◌++◌, arith,
  ◌==◌, is_empty, if_both,
}
use finn_os.Base.Int.{ℤ}
use finn_os.Comp.State.{Box, Toplevel, Layer, Server}
use finn_os.Comp.Windows.{
  has, has_layer, update, set_configured, IsAlive, IsAliveLayer, has-update,
  has_layer-set_configured, has_layer-append, IsAlive-append,
}
use finn_os.Comp.Focus.{cleared, focus, reset_cursor_mode, KeySym, handle_syms}
use finn_os.Comp.Geometry.{add_toplevel, no_edges}
use finn_os.Comp.Animation.{begin_open_animation, begin_open}
use finn_os.Comp.Events.Invariant.{
  IsSound, update-IsSound, focus-IsSound, focus_layer-IsSound, with_keyboard-IsSound,
  remove_toplevel-IsSound, release_layer-IsSound, remove_layer-IsSound, handle_syms-IsSound,
}
use finn_os.Comp.Events.Placing.{
  maximize-IsSound, unmaximize-IsSound, begin_interactive-IsSound, begin_open-KeepsId,
  animate_windows-IsSound, process_cursor_motion-IsSound,
}
use finn_os.Comp.Events.{
  Event, new_toplevel, toplevel_map, toplevel_unmap, toplevel_commit, toplevel_destroy,
  request_move, request_resize, request_maximize, new_layer, layer_map, layer_commit, layer_destroy,
  new_keyboard, keyboard_key, cursor_motion, cursor_button, touch_down, animation,
  surface_destroyed, keyboard_gone, is_positive, unmap, commit, maximize_request, add_layer,
  configure_layer, is_configured, commit_layer, key, button, step, run,
}

-- A listener runs only while its object is there, and `toplevel_at` finds only windows of the
-- scene: the scene's nodes go with their surfaces.
abbrev pub IsPossible : Event → Server → Type 0
IsPossible (toplevel_map i now) s = has i s.toplevels ≡ true
IsPossible (layer_map i mapped interactive) s = has_layer i s.layers ≡ true
IsPossible (layer_commit i initialized mapped interactive usable) s = has_layer i s.layers ≡ true
IsPossible (cursor_button pressed hit) s = IsAlive hit s.toplevels
IsPossible (touch_down hit) s = IsAlive hit s.toplevels
IsPossible _ s = Unit

-- Every event of a sequence is possible when it comes.
abbrev pub ArePossible : List Event → Server → Type 0
ArePossible [] s = Unit
ArePossible (e ∷ es) s = IsPossible e s × ArePossible es (step e s)

add_toplevel-IsSound :
    (i : ℕ) (geometry : Box) (s : Server) → IsSound s → IsSound (add_toplevel i geometry s)
unfolding add_toplevel
add_toplevel-IsSound i geometry s h = record {
  focused_alive = IsAlive-append s.focused s.toplevels _ h.focused_alive;
  last_alive = IsAlive-append s.last_focused s.toplevels _ h.last_alive;
  grabbed_alive = IsAlive-append s.grabbed s.toplevels _ h.grabbed_alive;
  layer_alive = h.layer_alive;
  grab_mode = h.grab_mode;
}

map-IsSound :
    (i now : ℕ) (s : Server)
    → has i s.toplevels ≡ true
    → IsSound s
    → IsSound (focus (some i) (begin_open_animation i now s))
unfolding begin_open_animation
map-IsSound i now s a h =
    let k = begin_open-KeepsId s.reduced_motion now in
    focus-IsSound (some i)
      (record s { toplevels = update i (begin_open s.reduced_motion now) s.toplevels })
      (has-update i i (begin_open s.reduced_motion now) s.toplevels k ∙ a)
      (update-IsSound i (begin_open s.reduced_motion now) s k h)

cleared_lem : (o : Option ℕ) (i : ℕ) (ts : List Toplevel) → IsAlive o ts → IsAlive (cleared o i) ts
cleared_lem none i ts h = tt
cleared_lem (some j) i ts h = if_both (λ o. IsAlive o ts) (j == i) none (some j) tt h

unmap-IsSound : (i : ℕ) (s : Server) → IsSound s → IsSound (unmap i s)
unfolding unmap
unmap-IsSound i s h =
    let u = update-IsSound i (λ t. record t { opening = false }) s (λ t. refl) h in
    record {
      focused_alive = cleared_lem s.focused i _ u.focused_alive;
      last_alive = u.last_alive;
      grabbed_alive = u.grabbed_alive;
      layer_alive = u.layer_alive;
      grab_mode = u.grab_mode;
    }

-- Layers may come, or change in place.
layers-IsSound :
    (ls : List Layer) (s : Server)
    → ((j : ℕ) → has_layer j s.layers ≡ true → has_layer j ls ≡ true)
    → IsSound s
    → IsSound (record s { layers = ls })
layers-IsSound ls s k h = record {
  focused_alive = h.focused_alive;
  last_alive = h.last_alive;
  grabbed_alive = h.grabbed_alive;
  layer_alive = carry s.focused_layer h.layer_alive;
  grab_mode = h.grab_mode;
}
  where
    carry : (o : Option ℕ) → IsAliveLayer o s.layers → IsAliveLayer o ls
    carry none a = tt
    carry (some j) a = k j a

configure_layer-IsSound :
    (usable : Box) (s : Server) → IsSound s → IsSound (configure_layer usable s)
unfolding configure_layer
configure_layer-IsSound usable s h =
    if_both IsSound (is_positive usable) (record s { usable = usable }) s
      (record {
        focused_alive = h.focused_alive;
        last_alive = h.last_alive;
        grabbed_alive = h.grabbed_alive;
        layer_alive = h.layer_alive;
        grab_mode = h.grab_mode;
      })
      h

add_layer-IsSound :
    (i : ℕ) (has_output : Bool) (s : Server) → IsSound s → IsSound (add_layer i has_output s)
unfolding add_layer
add_layer-IsSound i has_output s h =
    if_both IsSound (has_output || not (is_empty s.outputs)) _ s
      (layers-IsSound (s.layers ++ (record { id = i; configured = false } ∷ [])) s
        (λ j a.
          ground (arith, has_layer-append j s.layers (record { id = i; configured = false } ∷ [])))
        h)
      h

commit_layer-IsSound :
    (i : ℕ) (initialized mapped interactive : Bool) (usable : Box) (s : Server)
    → has_layer i s.layers ≡ true
    → IsSound s
    → IsSound (commit_layer i initialized mapped interactive usable s)
unfolding commit_layer
commit_layer-IsSound i initialized mapped interactive usable s a h =
    if_both IsSound (not (is_configured i s.layers)) _ _
      (if_both IsSound initialized _ _
        (configure_layer-IsSound usable (record s { layers = set_configured i s.layers })
          (layers-IsSound (set_configured i s.layers) s
            (λ j b. has_layer-set_configured i j s.layers ∙ b) h))
        h)
      (if_both IsSound (not mapped) _ _ h (
        if_both IsSound interactive _ _ (focus_layer-IsSound i mapped interactive s a h)
          (release_layer-IsSound i s h)))

has_keyboard-IsSound :
    (on : Bool) (s : Server) → IsSound s → IsSound (record s { has_keyboard = on })
has_keyboard-IsSound on s h = record {
  focused_alive = h.focused_alive;
  last_alive = h.last_alive;
  grabbed_alive = h.grabbed_alive;
  layer_alive = h.layer_alive;
  grab_mode = h.grab_mode;
}

key-IsSound :
    (shortcut : Bool) (syms : List KeySym) (s : Server) → IsSound s → IsSound (key shortcut syms s)
unfolding key
key-IsSound shortcut syms s h =
    let t = handle_syms-IsSound syms s h in
    if_both IsSound (not shortcut) _ _ (has_keyboard-IsSound true s h) (
      if_both IsSound (handle_syms syms s).1 _ _ t
        (has_keyboard-IsSound true (handle_syms syms s).0 t))

reset-IsSound : (s : Server) → IsSound s → IsSound (reset_cursor_mode s)
unfolding reset_cursor_mode
reset-IsSound s h = record {
  focused_alive = h.focused_alive;
  last_alive = h.last_alive;
  grabbed_alive = tt;
  layer_alive = h.layer_alive;
  grab_mode = λ p. refl;
}

pointer-IsSound :
    (x y : ℤ) (s : Server) → IsSound s → IsSound (record s { cursor_x = x; cursor_y = y })
pointer-IsSound x y s h = record {
  focused_alive = h.focused_alive;
  last_alive = h.last_alive;
  grabbed_alive = h.grabbed_alive;
  layer_alive = h.layer_alive;
  grab_mode = h.grab_mode;
}

commit-IsSound : (i : ℕ) (initial : Bool) (s : Server) → IsSound s → IsSound (commit i initial s)
unfolding commit
commit-IsSound i initial s h = if_both IsSound initial _ _ (update-IsSound i _ s (λ t. refl) h) h

maximize_request-IsSound :
    (i : ℕ) (initialized wanted : Bool) (s : Server)
    → IsSound s
    → IsSound (maximize_request i initialized wanted s)
unfolding maximize_request
maximize_request-IsSound i initialized wanted s h =
    if_both IsSound (not initialized) _ _ h
      (if_both IsSound wanted _ _ (maximize-IsSound i s h) (unmaximize-IsSound i s h))

button-IsSound :
    (pressed : Bool) (hit : Option ℕ) (s : Server)
    → IsAlive hit s.toplevels
    → IsSound s
    → IsSound (button pressed hit s)
unfolding button
button-IsSound pressed hit s a h =
    if_both IsSound pressed _ _ (focus-IsSound hit s a h) (reset-IsSound s h)

pub step-IsSound : (e : Event) (s : Server) → IsPossible e s → IsSound s → IsSound (step e s)
unfolding step
step-IsSound (new_toplevel i geometry) s p h = add_toplevel-IsSound i geometry s h
step-IsSound (toplevel_map i now) s p h = map-IsSound i now s p h
step-IsSound (toplevel_unmap i) s p h = unmap-IsSound i s h
step-IsSound (toplevel_commit i initial) s p h = commit-IsSound i initial s h
step-IsSound (toplevel_destroy i) s p h = remove_toplevel-IsSound i s h
step-IsSound (request_move i) s p h = begin_interactive-IsSound i true no_edges s h
step-IsSound (request_resize i edges) s p h = begin_interactive-IsSound i false edges s h
step-IsSound (request_maximize i initialized wanted) s p h =
    maximize_request-IsSound i initialized wanted s h
step-IsSound (new_layer i has_output) s p h = add_layer-IsSound i has_output s h
step-IsSound (layer_map i mapped interactive) s p h =
    if_both IsSound interactive _ _ (focus_layer-IsSound i mapped interactive s p h) h
step-IsSound (layer_commit i initialized mapped interactive usable) s p h =
    commit_layer-IsSound i initialized mapped interactive usable s p h
step-IsSound (layer_destroy i) s p h = remove_layer-IsSound i s h
step-IsSound new_keyboard s p h = has_keyboard-IsSound true s h
step-IsSound (keyboard_key shortcut syms) s p h = key-IsSound shortcut syms s h
step-IsSound (cursor_motion x y) s p h =
    process_cursor_motion-IsSound (record s { cursor_x = x; cursor_y = y })
      (pointer-IsSound x y s h)
step-IsSound (cursor_button pressed hit) s p h = button-IsSound pressed hit s p h
step-IsSound (touch_down hit) s p h = focus-IsSound hit s p h
step-IsSound (animation now) s p h = animate_windows-IsSound now s h
step-IsSound (surface_destroyed gone) s p h = with_keyboard-IsSound _ s h
step-IsSound keyboard_gone s p h = has_keyboard-IsSound false s h

-- Whatever sequence of possible events comes, after all of them each of `focused_`,
-- `last_focused_`, `grabbed_` and `focused_layer_` is null or points to an object that the server
-- still holds, and a move or a resize goes on only while a window is grabbed.
pub run-IsSound : (es : List Event) (s : Server) → ArePossible es s → IsSound s → IsSound (run es s)
unfolding run
run-IsSound [] s p h = h
run-IsSound (e ∷ es) s p h = run-IsSound es (step e s) p.1 (step-IsSound e s p.0 h)
