-- ===== src/Ui/Events.antt =====
-- The events that the compositor sends to the client of src/ui/app.cpp, and the loop of `run`.
use finn_os.Base.{ℕ, Bool, true, false, not, ◌||◌, List, [], ◌∷◌, if◌then◌else◌, if_both}
use finn_os.Base.Int.{ℤ, negsuc}
use finn_os.Ui.State.{Client, send, pong}
use finn_os.Ui.Buffers.{Allocation, destroy_buffers}
use finn_os.Ui.Surface.{request_frame, request_close, AppCall, app_calls}
use finn_os.Ui.Frames.{
  Drawing, frame_done, buffer_release, toplevel_configure, xdg_surface_configure, layer_configure,
}
use finn_os.Ui.Pointer.{
  move_pointer, press_pointer, release_pointer, pointer_leave, pointer_axis, touch_down, touch_up,
  touch_motion, touch_cancel,
}
use finn_os.Ui.Keyboard.{Pressed, keyboard_key, keyboard_focus, keyboard_keymap, seat_capabilities}
use finn_os.Ui.Outputs.{Global, registry_global, registry_remove, output_mode, output_scale}

-- One event, with what the system and the app answer while it is handled.
pub data Event : Type 0 where
  global : Global → Event
  global_remove : ℕ → Allocation × Allocation → Event
  mode : ℕ → Bool → ℤ → ℤ → Event
  scale : ℕ → ℤ → Allocation × Allocation → Event
  capabilities : Bool → Bool → Bool → Event
  ping : ℕ → Event
  toplevel_state : ℤ → ℤ → List ℕ → Event
  surface_configure : ℕ → Allocation × Allocation → Drawing → Event
  layer_state : ℕ → ℕ → ℕ → Allocation × Allocation → Drawing → Event
  close : Event
  release : ℕ → Event
  frame : Drawing → Event
  motion : ℤ → ℤ → Event
  leave : Event
  button : Bool → ℕ → ℕ → ℕ → Event
  axis : Bool → ℤ → Event
  down : ℤ → ℤ → ℤ → ℕ → ℕ → Event
  up : ℤ → Event
  drag : ℤ → ℤ → ℤ → Event
  cancel : Event
  settled : Event
  keymap : Bool → Bool → Event
  focus : Bool → Event
  key : Bool → Pressed → Event

unfoldable pub step : Event → Client → Client
step (global g) c = registry_global g c
step (global_remove name rounds) c = registry_remove name rounds c
step (mode name current width height) c = output_mode name current width height c
step (scale name factor rounds) c = output_scale name factor rounds c
step (capabilities pointer keyboard touch) c = seat_capabilities pointer keyboard touch c
step (ping serial) c = send (pong serial ∷ []) c
step (toplevel_state width height states) c = toplevel_configure width height states c
step (surface_configure serial rounds d) c = xdg_surface_configure serial rounds d c
step (layer_state serial width height rounds d) c = layer_configure serial width height rounds d c
step close c = request_close c
step (release id) c = buffer_release id c
step (frame d) c = frame_done d c
step (motion x y) c = move_pointer x y c
step leave c = pointer_leave c
step (button pressed code serial now) c =
    if pressed then press_pointer code serial now c else release_pointer c
step (axis horizontal value) c = pointer_axis horizontal value c
step (down id x y serial now) c = touch_down id x y serial now c
step (up id) c = touch_up id c
step (drag id x y) c = touch_motion id x y c
step cancel c = touch_cancel c
step settled c = request_frame c
step (keymap compiled made) c = keyboard_keymap compiled made c
step (focus focused) c = keyboard_focus focused c
step (key pressed k) c = keyboard_key pressed k c

unfoldable pub steps : List Event → Client → Client
steps [] c = c
steps (e ∷ es) c = steps es (step e c)

-- One turn of the loop: `poll` is interrupted, fails or times out (with the theme of `pick_theme`,
-- and what `tick_` calls when the app has one), or the events of the display are dispatched, with
-- success or not, or the display hangs up, or `poll` reports nothing that is looked at.
pub data Turn : Type 0 where
  interrupted poll_failed hung_up spurious : Turn
  idle : Bool → Bool → List AppCall → Turn
  dispatched : Bool → List Event → Turn

-- Whether the loop was left by `break`.
pub record Loop : Type 0 where
  pub client : Client
  pub left_loop : Bool

abbrev goes_on : Client → Loop
goes_on c = record { client = c; left_loop = false }

abbrev breaks : Client → Loop
breaks c = record { client = c; left_loop = true }

abbrev pub differ : Bool → Bool → Bool
differ true b = not b
differ false b = b

unfoldable pub idle_turn : Bool → Bool → List AppCall → Client → Client
unfolding app_calls request_frame
idle_turn picked_dark ticks calls c =
    let changed = differ picked_dark c.dark in
    let t = record c { dark = picked_dark } in
    let u = if ticks then app_calls calls t else t in
    if ticks || changed then request_frame u else u

unfoldable pub turn : Turn → Client → Loop
unfolding idle_turn steps
turn interrupted c = goes_on c
turn poll_failed c = breaks (record c { failed = true })
turn hung_up c = breaks c
turn spurious c = goes_on c
turn (idle picked_dark ticks calls) c = goes_on (idle_turn picked_dark ticks calls c)
turn (dispatched true events) c = goes_on (steps events c)
turn (dispatched false events) c = breaks (record (steps events c) { failed = true })

-- The loop, over the turns to come.
unfoldable pub loop : List Turn → Client → Client
loop [] c = c
loop (t ∷ ts) c =
    let next = turn t c in
    let rest = loop ts next.client in
    if not c.running then c else if next.left_loop then next.client else rest

-- What every turn keeps, the loop keeps.
pub loop_keeps :
    (P : Client → Type 0)
    → ((t : Turn) (c : Client) → P c → P (turn t c).client)
    → (ts : List Turn) (c : Client) → P c
    → P (loop ts c)
unfolding loop
loop_keeps P keeps [] c h = h
loop_keeps P keeps (t ∷ ts) c h =
    let next = turn t c in
    if_both {A = Client} P (not c.running) c
      (if next.left_loop then next.client else loop ts next.client) h
      (if_both {A = Client} P next.left_loop next.client (loop ts next.client) (keeps t c h)
        (loop_keeps P keeps ts next.client (keeps t c h)))

-- `destroy`: the buffers, the outputs and every proxy.
unfoldable pub destroy : Client → Client
unfolding destroy_buffers
destroy c = record (destroy_buffers c) {
  outputs = [];
  frame_callback = false;
  touch_id = negsuc 0;
  has_xkb_state = false;
}

-- `run`, with the exit status.
unfoldable pub run : List Turn → Client → Client × ℕ
unfolding loop destroy
run turns c =
    let ended = destroy (loop turns c) in
    if c.failed then (c, 1) else if ended.failed then (ended, 1) else (ended, 0)
