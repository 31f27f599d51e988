-- ===== src/Ui/Untouched.antt =====
-- What the input handlers of src/ui/app.cpp leave as it is.
use finn_os.Base.{ℕ, ◌≡◌, refl, Bool, true, false, not, [], ◌∷◌, ◌++◌, arith, if◌then◌else◌}
use finn_os.Base.Int.{ℤ, negsuc, ◌+ℤ◌}
use finn_os.Ui.State.{pong, set_maximized, unset_maximized, start_move, Client}
use finn_os.Ui.Frames.{toplevel_configure}
use finn_os.Ui.Keyboard.{
  Pressed, event_of, typed, keyboard_key, keyboard_focus, keyboard_keymap, seat_capabilities,
}
use finn_os.Ui.Outputs.{Global, registry_global, output_mode}
use finn_os.Ui.Events.{Event, step}
use finn_os.Ui.Pointer.{
  nowhere, release_pointer, pointer_leave, pointer_axis, touch_up, touch_motion, touch_cancel,
  move_pointer, toggle_maximized, title_press, body_press,
}
use finn_os.Ui.Quiet.{attached, core, core-request_frame, core-send}

pub core-move_pointer : (x y : ℤ) (c : Client) → core (move_pointer x y c) ≡ core c
unfolding move_pointer
core-move_pointer x y c = core-request_frame (record c { input = record c.input { x = x; y = y } })

pub core-toggle_maximized : (c : Client) → core (toggle_maximized c) ≡ core c
unfolding toggle_maximized attached
core-toggle_maximized c =
    let t = record c { maximized = not c.maximized } in
    let sends = core-send (set_maximized ∷ []) t refl in
    let unsends = core-send (unset_maximized ∷ []) t refl in ground arith

pub core-title_press : (serial now : ℕ) (c : Client) → core (title_press serial now c) ≡ core c
unfolding title_press attached
core-title_press serial now c =
    let toggles = core-toggle_maximized c in
    let sends = core-send (start_move serial ∷ []) c refl in ground arith

pub core-body_press : (serial now : ℕ) (c : Client) → core (body_press serial now c) ≡ core c
unfolding body_press
core-body_press serial now c =
    let asks = core-request_frame c in
    let asks_pressed = core-request_frame (title_press serial now c) in
    let presses = core-title_press serial now c in ground arith

core-touch_up : (id : ℤ) (c : Client) → core (touch_up id c) ≡ core c
unfolding touch_up release_pointer
core-touch_up id c =
    let t = record c {
      touch_id = negsuc 0;
      input = record c.input { pointer_down = false; pointer_released = true };
    } in
    let asks = core-request_frame t in ground arith

core-touch_motion : (id x y : ℤ) (c : Client) → core (touch_motion id x y c) ≡ core c
unfolding touch_motion
core-touch_motion id x y c = let moves = core-move_pointer x y c in ground arith

core-touch_cancel : (c : Client) → core (touch_cancel c) ≡ core c
unfolding touch_cancel
core-touch_cancel c =
    let t = record c {
      touch_id = negsuc 0;
      input = record c.input {
        pointer_down = false;
        pointer_pressed = false;
        pointer_released = false;
        x = nowhere;
        y = nowhere;
      };
    } in
    let asks = core-request_frame t in ground arith

core-keyboard_key :
    (pressed : Bool) (k : Pressed) (c : Client) → core (keyboard_key pressed k c) ≡ core c
unfolding keyboard_key
core-keyboard_key pressed k c =
    let t = record c {
      input = record c.input {
        text = c.input.text ++ typed k;
        keys = c.input.keys ++ (event_of k ∷ []);
      };
    } in
    let asks = core-request_frame t in ground arith

core-output_mode :
    (name : ℕ) (current : Bool) (width height : ℤ) (c : Client)
    → core (output_mode name current width height c) ≡ core c
unfolding output_mode
core-output_mode name current width height c = ground arith

core-registry_global : (g : Global) (c : Client) → core (registry_global g c) ≡ core c
unfolding registry_global
core-registry_global Global.compositor c = refl
core-registry_global Global.shm c = refl
core-registry_global Global.wm_base c = refl
core-registry_global Global.seat c = refl
core-registry_global Global.layer_shell c = refl
core-registry_global Global.unknown c = refl
core-registry_global (Global.output name) c = refl

core-keyboard_keymap :
    (compiled made : Bool) (c : Client) → core (keyboard_keymap compiled made c) ≡ core c
unfolding keyboard_keymap
core-keyboard_keymap compiled made c = ground arith

-- The events that can draw, make or free a buffer, or close the window.
unfoldable pub works : Event → Bool
works (Event.global_remove name rounds) = true
works (Event.scale name factor rounds) = true
works (Event.surface_configure serial rounds d) = true
works (Event.layer_state serial width height rounds d) = true
works (Event.release id) = true
works (Event.frame d) = true
works Event.close = true
works (Event.button pressed code serial now) = true
works (Event.down id x y serial now) = true
works _ = false

pub absurd_true {ℓ} : {A : Type ℓ} → true ≡ false → A
absurd_true h = let no : ⊥ = ground arith in elim no [ ]

-- Every other event leaves the core as it is.
pub core-step : (e : Event) (c : Client) → works e ≡ false → core (step e c) ≡ core c
unfolding works step attached release_pointer pointer_leave pointer_axis keyboard_focus
    seat_capabilities toplevel_configure
core-step (Event.global g) c h = core-registry_global g c
core-step (Event.mode name current width height) c h = core-output_mode name current width height c
core-step (Event.capabilities pointer keyboard touch) c h = refl
core-step (Event.ping serial) c h = core-send (pong serial ∷ []) c refl
core-step (Event.toplevel_state width height states) c h = refl
core-step Event.close c h = absurd_true h
core-step (Event.motion x y) c h = core-move_pointer x y c
core-step Event.leave c h =
    core-request_frame (record c { input = record c.input { x = nowhere; y = nowhere } })
core-step (Event.button pressed code serial now) c h = absurd_true h
core-step (Event.axis horizontal value) c h = core-request_frame (record c {
  input =
      if horizontal
      then record c.input { scroll_x = c.input.scroll_x +ℤ value }
      else record c.input { scroll_y = c.input.scroll_y +ℤ value };
})
core-step (Event.down id x y serial now) c h = absurd_true h
core-step (Event.up id) c h = core-touch_up id c
core-step (Event.drag id x y) c h = core-touch_motion id x y c
core-step Event.cancel c h = core-touch_cancel c
core-step Event.settled c h = core-request_frame c
core-step (Event.keymap compiled made) c h = core-keyboard_keymap compiled made c
core-step (Event.focus focused) c h = refl
core-step (Event.key pressed k) c h = core-keyboard_key pressed k c
core-step (Event.global_remove _ _) c h = absurd_true h
core-step (Event.scale _ _ _) c h = absurd_true h
core-step (Event.surface_configure _ _ _) c h = absurd_true h
core-step (Event.layer_state _ _ _ _ _) c h = absurd_true h
core-step (Event.release _) c h = absurd_true h
core-step (Event.frame _) c h = absurd_true h
