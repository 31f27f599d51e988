-- ===== src/Ui/Exchange/Work.antt =====
-- The handlers of src/ui/app.cpp, as moves of the exchange.
use finn_os.Base.{
  ℕ, ◌==◌, ◌≡◌, refl, ◌∙◌, Bool, true, false, ◌&&◌, ◌||◌, [], ◌∷◌, if◌then◌else◌, Option-cases, inl,
  inr, if_both,
}
use finn_os.Base.Int.{ℤ, pos, leb_ℤ, ltb_ℤ}
use finn_os.Ui.State.{Client, send, set_buffer_scale, ack_configure}
use finn_os.Ui.Buffers.{Allocation, create_buffers, destroy_buffers}
use finn_os.Ui.Surface.{request_frame, apply_input_region}
use finn_os.Ui.Frames.{
  Drawing, render_frame, resize, equal_ℤ, chosen, taken, xdg_surface_configure, layer_configure,
}
use finn_os.Ui.Outputs.{
  change_output, output_scale, max_scale, rescaled, update_scale, remove_output, registry_remove,
}
use finn_os.Ui.Events.{Event, step}
use finn_os.Ui.Pointer.{
  is_xdg, btn_left, toggle_maximized, body_press, press_on, frame_press, press_pointer,
  release_pointer, move_pointer, touch_down,
}
use finn_os.Ui.Quiet.{attached, core-request_frame, core-apply_input_region, core-send}
use finn_os.Ui.Untouched.{
  core-toggle_maximized, core-body_press, core-move_pointer, works, absurd_true, core-step,
}
use finn_os.Ui.Exchange.Steps.{Moved, Moved-same, Moved-trans, resizes, still}
use finn_os.Ui.Exchange.Drawing.{
  frame_done-Moved, render_frame-Moved, request_close-Moved, request_frame-Moved,
}
use finn_os.Ui.Exchange.Making.{create_buffers-Moved, destroy_buffers-Moved}

-- The handlers that are made of these.

resize-Moved : (width height : ℤ) (c : Client) → Moved c (resize width height c)
unfolding resize
resize-Moved width height c =
    let t = record c { width = width; height = height } in
    if_both {A = Client} (λ u. Moved c u) (equal_ℤ width c.width && equal_ℤ height c.height) c
      (destroy_buffers t) (Moved-same c c refl)
      (Moved-trans c t (destroy_buffers t) ([], resizes (width, height, c.scale) c.configured still)
        (destroy_buffers-Moved t))

configured-Moved : (c : Client) → Moved c (record c { configured = true })
configured-Moved c = ([], resizes (c.width, c.height, c.scale) true still)

xdg_surface_configure-Moved :
    (serial : ℕ) (rounds : Allocation × Allocation) (d : Drawing) (c : Client)
    → Moved c (xdg_surface_configure serial rounds d c)
unfolding xdg_surface_configure attached
xdg_surface_configure-Moved serial rounds d old =
    let c = send (ack_configure serial ∷ []) old in
    let width = chosen c.pending_width c.configured c.width c.requested_width in
    let height = chosen c.pending_height c.configured c.height c.requested_height in
    let sized = resize width height c in
    let t = record sized { configured = true } in
    let u = (create_buffers rounds t).0 in
    let acks = Moved-same old c (core-send (ack_configure serial ∷ []) old refl) in
    if_both {A = Client} (λ v. Moved old v) (leb_ℤ width (pos 0) || leb_ℤ height (pos 0)) c
      (render_frame d u) acks
      (Moved-trans old c (render_frame d u) acks (
        Moved-trans c sized (render_frame d u) (resize-Moved width height c) (
          Moved-trans sized t (render_frame d u) (configured-Moved sized) (
            Moved-trans t u (render_frame d u) (create_buffers-Moved rounds t)
              (render_frame-Moved d u)))))

layer_configure-Moved :
    (serial width height : ℕ) (rounds : Allocation × Allocation) (d : Drawing) (c : Client)
    → Moved c (layer_configure serial width height rounds d c)
unfolding layer_configure attached
layer_configure-Moved serial width height rounds d old =
    let sized = record old { width = taken width old.width; height = taken height old.height } in
    let c = send (ack_configure serial ∷ []) sized in
    let t = record c { configured = true } in
    let u = (create_buffers rounds t).0 in
    let v = apply_input_region u in
    let acks =
      Moved-trans old sized c
        (
          [],
          resizes (taken width old.width, taken height old.height, old.scale) old.configured still,
        )
        (Moved-same sized c (core-send (ack_configure serial ∷ []) sized refl)) in
    if_both {A = Client} (λ w. Moved old w) (leb_ℤ c.width (pos 0) || leb_ℤ c.height (pos 0)) c
      (render_frame d v) acks
      (Moved-trans old c (render_frame d v) acks (
        Moved-trans c t (render_frame d v) (configured-Moved c) (
          Moved-trans t u (render_frame d v) (create_buffers-Moved rounds t) (
            Moved-trans u v (render_frame d v) (Moved-same u v (core-apply_input_region u))
              (render_frame-Moved d v)))))

rescaled-Moved :
    (rounds : Allocation × Allocation) (scale : ℕ) (c : Client) → Moved c (rescaled rounds scale c)
unfolding rescaled attached
rescaled-Moved rounds scale old =
    let scaled = record old { scale = scale } in
    let c = if old.has_surface then send (set_buffer_scale scale ∷ []) scaled else scaled in
    let t = destroy_buffers c in
    let u = (create_buffers rounds t).0 in
    let tells =
      Moved-trans old scaled c ([], resizes (old.width, old.height, scale) old.configured still)
        (if_both {A = Client} (λ v. Moved scaled v) old.has_surface
          (send (set_buffer_scale scale ∷ []) scaled) scaled
          (Moved-same scaled (send (set_buffer_scale scale ∷ []) scaled)
            (core-send (set_buffer_scale scale ∷ []) scaled refl))
          (Moved-same scaled scaled refl)) in
    if_both {A = Client} (λ v. Moved old v) c.configured (request_frame u) c
      (Moved-trans old c (request_frame u) tells (
        Moved-trans c t (request_frame u) (destroy_buffers-Moved c) (
          Moved-trans t u (request_frame u) (create_buffers-Moved rounds t)
            (request_frame-Moved u))))
      tells

update_scale-Moved :
    (rounds : Allocation × Allocation) (c : Client) → Moved c (update_scale rounds c)
unfolding update_scale
update_scale-Moved rounds c =
    let scale = max_scale 1 c.outputs in
    if_both {A = Client} (λ v. Moved c v) (scale == c.scale) c (rescaled rounds scale c)
      (Moved-same c c refl) (rescaled-Moved rounds scale c)

registry_remove-Moved :
    (name : ℕ) (rounds : Allocation × Allocation) (c : Client)
    → Moved c (registry_remove name rounds c)
unfolding registry_remove
registry_remove-Moved name rounds c = elim (Option-cases (remove_output name c.outputs)) [
  | inl none_left ↦ rw none_left (Moved-same c c refl)
  | inr (left, found) ↦ rw found (
      Moved-trans c (record c { outputs = left })
        (update_scale rounds (record c { outputs = left }))
        (Moved-same c (record c { outputs = left }) refl)
        (update_scale-Moved rounds (record c { outputs = left })))
]

output_scale-Moved :
    (name : ℕ) (factor : ℤ) (rounds : Allocation × Allocation) (c : Client)
    → Moved c (output_scale name factor rounds c)
unfolding output_scale
output_scale-Moved name factor rounds c =
    let t = record c {
      outputs = change_output name (λ o. record o { scale = factor }) c.outputs;
    } in
    Moved-trans c t (update_scale rounds t) (Moved-same c t refl) (update_scale-Moved rounds t)

press_on-Moved :
    (closes maximizes minimizes : Bool) (serial now : ℕ) (c : Client)
    → Moved c (press_on closes maximizes minimizes serial now c)
unfolding press_on
press_on-Moved true maximizes minimizes serial now c = request_close-Moved c
press_on-Moved false true minimizes serial now c =
    Moved-same c (request_frame (toggle_maximized c))
      (core-request_frame (toggle_maximized c) ∙ core-toggle_maximized c)
press_on-Moved false false true serial now c = Moved-same c c refl
press_on-Moved false false false serial now c =
    Moved-same c (body_press serial now c) (core-body_press serial now c)

press_pointer-Moved :
    (button serial now : ℕ) (c : Client) → Moved c (press_pointer button serial now c)
unfolding press_pointer frame_press
press_pointer-Moved button serial now old =
    let c = record old {
      input = record old.input { pointer_down = true; pointer_pressed = true; button = button };
    } in
    if_both {A = Client} (λ t. Moved old t)
      (is_xdg c.mode && (c.framed && (button == btn_left && c.has_toplevel)))
      (frame_press serial now c) (request_frame c) (press_on-Moved _ _ _ serial now c)
      (Moved-same old (request_frame c) (core-request_frame c))

release_pointer-Moved : (c : Client) → Moved c (release_pointer c)
unfolding release_pointer
release_pointer-Moved c =
    let t = record c { input = record c.input { pointer_down = false; pointer_released = true } } in
    Moved-same c (request_frame t) (core-request_frame t)

touch_down-Moved :
    (id x y : ℤ) (serial now : ℕ) (c : Client) → Moved c (touch_down id x y serial now c)
unfolding touch_down
touch_down-Moved id x y serial now c =
    let t = record c { touch_id = id } in
    let moved = move_pointer x y t in
    if_both {A = Client} (λ u. Moved c u) (ltb_ℤ c.touch_id (pos 0))
      (press_pointer btn_left serial now moved) c
      (Moved-trans c moved (press_pointer btn_left serial now moved)
        (Moved-same c moved (core-move_pointer x y t))
        (press_pointer-Moved btn_left serial now moved))
      (Moved-same c c refl)

abbrev pub releases : Event → Bool
releases (Event.release id) = true
releases _ = false

-- Every event but the release of a buffer is made of moves.
pub step-Moved : (e : Event) (c : Client) → releases e ≡ false → Moved c (step e c)
unfolding step works
step-Moved (Event.global_remove name rounds) c h = registry_remove-Moved name rounds c
step-Moved (Event.scale name factor rounds) c h = output_scale-Moved name factor rounds c
step-Moved (Event.surface_configure serial rounds d) c h =
    xdg_surface_configure-Moved serial rounds d c
step-Moved (Event.layer_state serial width height rounds d) c h =
    layer_configure-Moved serial width height rounds d c
step-Moved (Event.frame d) c h = frame_done-Moved d c
step-Moved (Event.release id) c h = absurd_true h
step-Moved (Event.global u) c h =
    Moved-same c (step (Event.global u) c) (core-step (Event.global u) c refl)
step-Moved (Event.mode u v w x) c h =
    Moved-same c (step (Event.mode u v w x) c) (core-step (Event.mode u v w x) c refl)
step-Moved (Event.capabilities u v w) c h =
    Moved-same c (step (Event.capabilities u v w) c) (core-step (Event.capabilities u v w) c refl)
step-Moved (Event.ping u) c h =
    Moved-same c (step (Event.ping u) c) (core-step (Event.ping u) c refl)
step-Moved (Event.toplevel_state u v w) c h =
    Moved-same c (step (Event.toplevel_state u v w) c)
      (core-step (Event.toplevel_state u v w) c refl)
step-Moved Event.close c h = request_close-Moved c
step-Moved (Event.motion u v) c h =
    Moved-same c (step (Event.motion u v) c) (core-step (Event.motion u v) c refl)
step-Moved Event.leave c h = Moved-same c (step Event.leave c) (core-step Event.leave c refl)
step-Moved (Event.button true code serial now) c h = press_pointer-Moved code serial now c
step-Moved (Event.button false code serial now) c h = release_pointer-Moved c
step-Moved (Event.axis u v) c h =
    Moved-same c (step (Event.axis u v) c) (core-step (Event.axis u v) c refl)
step-Moved (Event.down id x y serial now) c h = touch_down-Moved id x y serial now c
step-Moved (Event.up u) c h = Moved-same c (step (Event.up u) c) (core-step (Event.up u) c refl)
step-Moved (Event.drag u v w) c h =
    Moved-same c (step (Event.drag u v w) c) (core-step (Event.drag u v w) c refl)
step-Moved Event.cancel c h = Moved-same c (step Event.cancel c) (core-step Event.cancel c refl)
step-Moved Event.settled c h = Moved-same c (step Event.settled c) (core-step Event.settled c refl)
step-Moved (Event.keymap u v) c h =
    Moved-same c (step (Event.keymap u v) c) (core-step (Event.keymap u v) c refl)
step-Moved (Event.focus u) c h =
    Moved-same c (step (Event.focus u) c) (core-step (Event.focus u) c refl)
step-Moved (Event.key u v) c h =
    Moved-same c (step (Event.key u v) c) (core-step (Event.key u v) c refl)
