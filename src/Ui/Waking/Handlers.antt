-- ===== src/Ui/Waking/Handlers.antt =====
-- Each listener of src/ui/app.cpp, and whether it can forget a frame that is owed.
use finn_os.Base.{
  arith, ℕ, ◌≡◌, ap, ◌∙◌, Bool, true, false, not, ◌&&◌, ◌||◌, List, [], ◌∷◌, ◌++◌, if◌then◌else◌,
  if_both,
}
use finn_os.Base.Int.{ℤ, pos, negsuc, leb_ℤ, ltb_ℤ, ◌+ℤ◌}
use finn_os.Ui.State.{Input, Client, send, ack_configure}
use finn_os.Ui.Buffers.{Allocation, create_buffers, destroy_buffers}
use finn_os.Ui.Surface.{AppCall, app_calls, request_frame, apply_input_region}
use finn_os.Ui.Frames.{
  equal_ℤ, Drawing, resize, chosen, taken, render_frame, xdg_surface_configure, layer_configure,
  toplevel_configure,
}
use finn_os.Ui.Outputs.{change_output, output_scale, output_mode, registry_global, Global}
use finn_os.Ui.Pointer.{
  nowhere, move_pointer, release_pointer, pointer_leave, pointer_axis, touch_up, touch_motion,
  touch_cancel, same_contact,
}
use finn_os.Ui.Keyboard.{
  typed, event_of, keyboard_key, keyboard_keymap, keyboard_focus, seat_capabilities,
}
use finn_os.Ui.Events.{Event, step, steps, Turn, turn, loop, loop_keeps, idle_turn, differ}
use finn_os.Ui.Quiet.{core-app_calls, core-apply_input_region}
use finn_os.Ui.Waking.{
  IsAwake, request_frame-IsAwake, request_close-IsAwake, render_frame-IsAwake, frame_done-IsAwake,
}
use finn_os.Ui.Waking.Pressing.{
  buffer_release-IsAwake, create_buffers-idle, press_pointer-IsAwake, registry_remove-IsAwake,
  touch_down-IsAwake, update_scale-IsAwake,
}

xdg_surface_configure-IsAwake :
    (serial : ℕ) (rounds : Allocation × Allocation) (d : Drawing) (c : Client)
    → IsAwake c
    → IsAwake (xdg_surface_configure serial rounds d c)
unfolding xdg_surface_configure resize destroy_buffers
xdg_surface_configure-IsAwake serial rounds d old h =
    let c = send (ack_configure serial ∷ []) old in
    let width = chosen c.pending_width c.configured c.width c.requested_width in
    let height = chosen c.pending_height c.configured c.height c.requested_height in
    let sized = resize width height c in
    let t = record sized { configured = true } in
    let u = (create_buffers rounds t).0 in
    let still_idle : sized.in_draw ≡ false =
      if_both {A = Client} (λ v. v.in_draw ≡ false)
        (equal_ℤ width c.width && equal_ℤ height c.height) c
        (destroy_buffers (record c { width = width; height = height })) h.idle h.idle in
    if_both {A = Client} IsAwake (leb_ℤ width (pos 0) || leb_ℤ height (pos 0)) c (render_frame d u)
      (record { idle = h.idle; awake = h.awake })
      (render_frame-IsAwake d u (create_buffers-idle rounds t still_idle))

layer_configure-IsAwake :
    (serial width height : ℕ) (rounds : Allocation × Allocation) (d : Drawing) (c : Client)
    → IsAwake c
    → IsAwake (layer_configure serial width height rounds d c)
unfolding layer_configure
layer_configure-IsAwake serial width height rounds d old h =
    let sized = record old { width = taken width old.width; height = taken height old.height } in
    let c = send (ack_configure serial ∷ []) sized in
    let t = record c { configured = true } in
    let u = (create_buffers rounds t).0 in
    let region = ap (λ k. k.in_draw) (core-apply_input_region u) in
    if_both {A = Client} IsAwake (leb_ℤ c.width (pos 0) || leb_ℤ c.height (pos 0)) c
      (render_frame d (apply_input_region u)) (record { idle = h.idle; awake = h.awake })
      (render_frame-IsAwake d (apply_input_region u) (region ∙ create_buffers-idle rounds t h.idle))

-- A new input asks for a frame.
read-IsAwake :
    (input : Input) (touch_id : ℤ) (c : Client)
    → IsAwake c
    → IsAwake (request_frame (record c { input = input; touch_id = touch_id }))
read-IsAwake input touch_id c h =
    request_frame-IsAwake (record c { input = input; touch_id = touch_id }) h.idle

-- Where a test holds.
read_if-IsAwake :
    (b : Bool) (input : Input) (touch_id : ℤ) (c : Client)
    → IsAwake c
    → IsAwake (if b then request_frame (record c { input = input; touch_id = touch_id }) else c)
read_if-IsAwake b input touch_id c h =
    if_both {A = Client} IsAwake b (request_frame (record c { input = input; touch_id = touch_id }))
      c (read-IsAwake input touch_id c h) h

-- Where a test fails.
read_unless-IsAwake :
    (b : Bool) (input : Input) (touch_id : ℤ) (c : Client)
    → IsAwake c
    → IsAwake (if b then c else request_frame (record c { input = input; touch_id = touch_id }))
read_unless-IsAwake b input touch_id c h =
    if_both {A = Client} IsAwake b c
      (request_frame (record c { input = input; touch_id = touch_id })) h
      (read-IsAwake input touch_id c h)

registry_global-IsAwake : (g : Global) (c : Client) → IsAwake c → IsAwake (registry_global g c)
unfolding registry_global
registry_global-IsAwake Global.unknown c h = h
registry_global-IsAwake g c h = record { idle = h.idle; awake = h.awake }

step-IsAwake : (e : Event) (c : Client) → IsAwake c → IsAwake (step e c)
unfolding step output_mode output_scale keyboard_key keyboard_keymap keyboard_focus
    seat_capabilities toplevel_configure release_pointer pointer_leave pointer_axis touch_up
    touch_motion touch_cancel move_pointer
step-IsAwake (Event.global g) c h = registry_global-IsAwake g c h
step-IsAwake (Event.global_remove name rounds) c h = registry_remove-IsAwake name rounds c h
step-IsAwake (Event.mode name current width height) c h =
    if_both {A = Client} IsAwake current
      (record c {
        outputs =
            change_output name (λ o. record o { mode_width = width; mode_height = height })
              c.outputs;
      })
      c (record { idle = h.idle; awake = h.awake }) h
step-IsAwake (Event.scale name factor rounds) c h =
    update_scale-IsAwake rounds
      (record c { outputs = change_output name (λ o. record o { scale = factor }) c.outputs })
      (record { idle = h.idle; awake = h.awake })
step-IsAwake (Event.capabilities pointer keyboard touch) c h = record {
  idle = h.idle;
  awake = h.awake;
}
step-IsAwake (Event.ping serial) c h = record { idle = h.idle; awake = h.awake }
step-IsAwake (Event.toplevel_state width height states) c h = record {
  idle = h.idle;
  awake = h.awake;
}
step-IsAwake (Event.surface_configure serial rounds d) c h =
    xdg_surface_configure-IsAwake serial rounds d c h
step-IsAwake (Event.layer_state serial width height rounds d) c h =
    layer_configure-IsAwake serial width height rounds d c h
step-IsAwake Event.close c h = request_close-IsAwake c h
step-IsAwake (Event.release id) c h = buffer_release-IsAwake id c h
step-IsAwake (Event.frame d) c h = frame_done-IsAwake d c h
step-IsAwake (Event.motion x y) c h = read-IsAwake (record c.input { x = x; y = y }) c.touch_id c h
step-IsAwake Event.leave c h =
    read-IsAwake (record c.input { x = nowhere; y = nowhere }) c.touch_id c h
step-IsAwake (Event.button true code serial now) c h = press_pointer-IsAwake code serial now c h
step-IsAwake (Event.button false code serial now) c h =
    read-IsAwake (record c.input { pointer_down = false; pointer_released = true }) c.touch_id c h
step-IsAwake (Event.axis horizontal value) c h =
    read-IsAwake
      (if horizontal
        then record c.input { scroll_x = c.input.scroll_x +ℤ value }
        else record c.input { scroll_y = c.input.scroll_y +ℤ value })
      c.touch_id c h
step-IsAwake (Event.down id x y serial now) c h = touch_down-IsAwake id x y serial now c h
step-IsAwake (Event.up id) c h =
    read_if-IsAwake (same_contact c.touch_id id)
      (record c.input { pointer_down = false; pointer_released = true }) (negsuc 0) c h
step-IsAwake (Event.drag id x y) c h =
    read_if-IsAwake (same_contact c.touch_id id) (record c.input { x = x; y = y }) c.touch_id c h
step-IsAwake Event.cancel c h =
    read_unless-IsAwake (ltb_ℤ c.touch_id (pos 0))
      (record c.input {
        pointer_down = false;
        pointer_pressed = false;
        pointer_released = false;
        x = nowhere;
        y = nowhere;
      })
      (negsuc 0) c h
step-IsAwake Event.settled c h = request_frame-IsAwake c h.idle
step-IsAwake (Event.keymap compiled made) c h =
    if_both {A = Client} IsAwake compiled (record c { has_xkb_state = made }) c
      (record { idle = h.idle; awake = h.awake }) h
step-IsAwake (Event.focus focused) c h = record { idle = h.idle; awake = h.awake }
step-IsAwake (Event.key pressed k) c h =
    read_unless-IsAwake (not (pressed && c.has_xkb_state))
      (record c.input { text = c.input.text ++ typed k; keys = c.input.keys ++ (event_of k ∷ []) })
      c.touch_id c h

steps-IsAwake : (events : List Event) (c : Client) → IsAwake c → IsAwake (steps events c)
unfolding steps
steps-IsAwake [] c h = h
steps-IsAwake (e ∷ es) c h = steps-IsAwake es (step e c) (step-IsAwake e c h)

idle_turn-IsAwake :
    (picked_dark ticks : Bool) (calls : List AppCall) (c : Client)
    → IsAwake c
    → IsAwake (idle_turn picked_dark ticks calls c)
unfolding idle_turn
idle_turn-IsAwake picked_dark true calls c h =
    request_frame-IsAwake (app_calls calls (record c { dark = picked_dark }))
      (ap (λ k. k.in_draw) (core-app_calls calls (record c { dark = picked_dark })) ∙ h.idle)
idle_turn-IsAwake picked_dark false calls c h =
    let t = record c { dark = picked_dark } in
    if_both {A = Client} IsAwake (differ picked_dark c.dark) (request_frame t) t
      (request_frame-IsAwake t h.idle) (record { idle = h.idle; awake = h.awake })

-- A client that has failed owes no frame.
failed-IsAwake : (c : Client) → IsAwake c → IsAwake (record c { failed = true })
failed-IsAwake c h = record { idle = h.idle; awake = ground arith }

turn-IsAwake : (t : Turn) (c : Client) → IsAwake c → IsAwake (turn t c).client
unfolding turn
turn-IsAwake Turn.interrupted c h = h
turn-IsAwake Turn.poll_failed c h = failed-IsAwake c h
turn-IsAwake Turn.hung_up c h = h
turn-IsAwake Turn.spurious c h = h
turn-IsAwake (Turn.idle picked_dark ticks calls) c h = idle_turn-IsAwake picked_dark ticks calls c h
turn-IsAwake (Turn.dispatched true events) c h = steps-IsAwake events c h
turn-IsAwake (Turn.dispatched false events) c h =
    failed-IsAwake (steps events c) (steps-IsAwake events c h)

pub loop-IsAwake : (ts : List Turn) (c : Client) → IsAwake c → IsAwake (loop ts c)
loop-IsAwake = loop_keeps IsAwake turn-IsAwake
