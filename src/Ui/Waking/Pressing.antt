-- ===== src/Ui/Waking/Pressing.antt =====
-- Presses and buffers in src/ui/app.cpp, and whether they can forget a frame that is owed.
use finn_os.Base.{
  ℕ, ◌==◌, ◌≡◌, refl, ap, ◌∙◌, Bool, true, false, not, ◌&&◌, [], ◌∷◌, arith, if◌then◌else◌,
  Option-cases, inl, inr, if_both,
}
use finn_os.Base.Int.{ℤ, pos, ltb_ℤ}
use finn_os.Ui.State.{Client, send, set_buffer_scale, contains}
use finn_os.Ui.Buffers.{Allocation, create_buffers, destroy_buffers}
use finn_os.Ui.Surface.{request_frame}
use finn_os.Ui.Frames.{set_busy, holds, buffer_release}
use finn_os.Ui.Outputs.{max_scale, rescaled, update_scale, registry_remove, remove_output}
use finn_os.Ui.Pointer.{
  btn_left, pill, in_any, title_height, title_press, toggle_maximized, body_press, press_on,
  frame_press, press_pointer, move_pointer, touch_down, is_xdg,
}
use finn_os.Ui.Untouched.{core-toggle_maximized, core-title_press}
use finn_os.Ui.Exchange.{create_buffers-Moved, Moves-in_draw}
use finn_os.Ui.Waking.{IsAwake, request_frame-IsAwake, request_close-IsAwake}

-- What is owed is asked for, or nothing is owed.
asked_by_need :
    (needs : Bool) (t : Client)
    → t.needs_frame ≡ needs
    → t.in_draw ≡ false
    → IsAwake (if needs then request_frame t else t)
asked_by_need true t same idle = request_frame-IsAwake t idle
asked_by_need false t same idle = record { idle = idle; awake = ground arith }

pub buffer_release-IsAwake : (id : ℕ) (c : Client) → IsAwake c → IsAwake (buffer_release id c)
unfolding buffer_release
buffer_release-IsAwake id c h =
    let t = record c { buffers = set_busy id false c.buffers } in
    if_both {A = Client} IsAwake (not (holds id c.buffers)) c
      (if t.needs_frame then request_frame t else t) h (asked_by_need t.needs_frame t refl h.idle)

body_press-IsAwake : (serial now : ℕ) (c : Client) → IsAwake c → IsAwake (body_press serial now c)
unfolding body_press
body_press-IsAwake serial now c h =
    if_both {A = Client} IsAwake (contains (pill c.width) c.input.x c.input.y) c
      (if in_any c.interactive_rects c.input.x c.input.y
        then request_frame c
        else if ltb_ℤ c.input.y title_height
        then request_frame (title_press serial now c)
        else request_frame c)
      h
      (if_both {A = Client} IsAwake (in_any c.interactive_rects c.input.x c.input.y)
        (request_frame c)
        (if ltb_ℤ c.input.y title_height
          then request_frame (title_press serial now c)
          else request_frame c)
        (request_frame-IsAwake c h.idle)
        (if_both {A = Client} IsAwake (ltb_ℤ c.input.y title_height)
          (request_frame (title_press serial now c)) (request_frame c)
          (request_frame-IsAwake (title_press serial now c)
            (ap (λ k. k.in_draw) (core-title_press serial now c) ∙ h.idle))
          (request_frame-IsAwake c h.idle)))

press_on-IsAwake :
    (closes maximizes minimizes : Bool) (serial now : ℕ) (c : Client)
    → IsAwake c
    → IsAwake (press_on closes maximizes minimizes serial now c)
unfolding press_on
press_on-IsAwake true maximizes minimizes serial now c h = request_close-IsAwake c h
press_on-IsAwake false true minimizes serial now c h =
    request_frame-IsAwake (toggle_maximized c)
      (ap (λ k. k.in_draw) (core-toggle_maximized c) ∙ h.idle)
press_on-IsAwake false false true serial now c h = h
press_on-IsAwake false false false serial now c h = body_press-IsAwake serial now c h

pub press_pointer-IsAwake :
    (button serial now : ℕ) (c : Client) → IsAwake c → IsAwake (press_pointer button serial now c)
unfolding press_pointer frame_press
press_pointer-IsAwake button serial now old h =
    let c = record old {
      input = record old.input { pointer_down = true; pointer_pressed = true; button = button };
    } in
    if_both {A = Client} IsAwake
      (is_xdg c.mode && (c.framed && (button == btn_left && c.has_toplevel)))
      (frame_press serial now c) (request_frame c)
      (press_on-IsAwake _ _ _ serial now c (record { idle = h.idle; awake = h.awake }))
      (request_frame-IsAwake c h.idle)

pub touch_down-IsAwake :
    (id x y : ℤ) (serial now : ℕ) (c : Client)
    → IsAwake c
    → IsAwake (touch_down id x y serial now c)
unfolding touch_down move_pointer
touch_down-IsAwake id x y serial now c h =
    let t = record c { touch_id = id } in
    let moved = record t { input = record t.input { x = x; y = y } } in
    if_both {A = Client} IsAwake (ltb_ℤ c.touch_id (pos 0))
      (press_pointer btn_left serial now (move_pointer x y t)) c
      (press_pointer-IsAwake btn_left serial now (move_pointer x y t)
        (request_frame-IsAwake moved h.idle))
      h

pub create_buffers-idle :
    (rounds : Allocation × Allocation) (c : Client)
    → c.in_draw ≡ false
    → (create_buffers rounds c).0.in_draw ≡ false
create_buffers-idle rounds c h = Moves-in_draw (create_buffers-Moved rounds c).1 h

rescaled-IsAwake :
    (rounds : Allocation × Allocation) (scale : ℕ) (c : Client)
    → IsAwake c
    → IsAwake (rescaled rounds scale c)
unfolding rescaled destroy_buffers
rescaled-IsAwake rounds scale old h =
    let scaled = record old { scale = scale } in
    let told = send (set_buffer_scale scale ∷ []) scaled in
    let c = if old.has_surface then told else scaled in
    let t : IsAwake c =
      if_both {A = Client} IsAwake old.has_surface told scaled
        (record { idle = h.idle; awake = h.awake }) (record { idle = h.idle; awake = h.awake }) in
    if_both {A = Client} IsAwake c.configured
      (request_frame (create_buffers rounds (destroy_buffers c)).0) c
      (request_frame-IsAwake (create_buffers rounds (destroy_buffers c)).0
        (create_buffers-idle rounds (destroy_buffers c) t.idle))
      t

pub update_scale-IsAwake :
    (rounds : Allocation × Allocation) (c : Client) → IsAwake c → IsAwake (update_scale rounds c)
unfolding update_scale
update_scale-IsAwake rounds c h =
    let scale = max_scale 1 c.outputs in
    if_both {A = Client} IsAwake (scale == c.scale) c (rescaled rounds scale c) h
      (rescaled-IsAwake rounds scale c h)

pub registry_remove-IsAwake :
    (name : ℕ) (rounds : Allocation × Allocation) (c : Client)
    → IsAwake c
    → IsAwake (registry_remove name rounds c)
unfolding registry_remove
registry_remove-IsAwake name rounds c h = elim (Option-cases (remove_output name c.outputs)) [
  | inl absent ↦ rw absent h
  | inr (left, found) ↦ rw found (
      update_scale-IsAwake rounds (record c { outputs = left })
        (record { idle = h.idle; awake = h.awake }))
]
