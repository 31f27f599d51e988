-- ===== src/Ui/Frames.antt =====
-- `render_frame`, `frame_done`, `buffer_release` and the configurations that lead to a frame, in
-- src/ui/app.cpp.
use finn_os.Base.{
  ℕ, suc, ◌%◌, Bool, true, false, not, ◌&&◌, ◌||◌, Option, none, some, List, [], ◌∷◌, ◌++◌, ltb,
  ◌==◌, if◌then◌else◌,
}
use finn_os.Base.Int.{ℤ, pos, leb_ℤ, ltb_ℤ}
use finn_os.Ui.State.{
  Rect, Input, ShmBuffer, Client, send, commit, attach, damage, set_buffer_scale, ack_configure,
}
use finn_os.Ui.Buffers.{
  Allocation, buffer_width, buffer_height, create_buffers, to_int32, destroy_buffers,
}
use finn_os.Ui.Surface.{need_frame, request_frame, apply_input_region, AppCall, app_calls}

-- What the app does when it draws: its calls, whether a widget is animating, where its controls
-- are; and the theme that `pick_theme` would give.
pub record Drawing : Type 0 where
  pub calls : List AppCall
  pub animating : Bool
  pub controls : List Rect
  pub picked_dark : Bool

-- The first buffer that is not busy.
unfoldable pub first_free : List ShmBuffer → Option ShmBuffer
first_free [] = none
first_free (b ∷ bs) = let rest = first_free bs in if b.busy then rest else some b

unfoldable pub set_busy : ℕ → Bool → List ShmBuffer → List ShmBuffer
set_busy id busy [] = []
set_busy id busy (b ∷ bs) =
    (if b.id == id then record b { busy = busy } else b) ∷ set_busy id busy bs

unfoldable pub reset_input : Input → Input
reset_input input = record input {
  pointer_pressed = false;
  pointer_released = false;
  button = 0;
  scroll_x = pos 0;
  scroll_y = pos 0;
  keys = [];
  text = [];
}

-- Up to `draw_frame`: the target is taken, and every fifth frame looks at the theme.
unfoldable pub begin_draw : ShmBuffer → Drawing → Client → Client
begin_draw target d c = record c {
  buffers = set_busy target.id true c.buffers;
  in_draw = true;
  theme_counter = suc c.theme_counter;
  dark = if c.theme_counter % 5 == 0 then d.picked_dark else c.dark;
  interactive_rects = d.controls;
  seen = c.seen ++ (c.input ∷ []);
}

-- Behind `draw_frame`: the frame is handed over with the size that it was begun with.
unfoldable pub end_draw : ShmBuffer → ℤ → ℤ → Drawing → Client → Client
unfolding reset_input
end_draw target width height d c =
    send (set_buffer_scale c.scale ∷ attach target.id ∷ damage width height ∷ commit ∷ [])
      (record c {
        needs_frame = c.needs_frame || d.animating;
        in_draw = false;
        input = reset_input c.input;
      })

unfoldable pub draw_into : ShmBuffer → Drawing → Client → Client
unfolding begin_draw end_draw app_calls
draw_into target d c =
    end_draw target (buffer_width c) (buffer_height c) d (app_calls d.calls (begin_draw target d c))

abbrev pub draw_or_wait : Option ShmBuffer → Drawing → Client → Client
draw_or_wait none d c = need_frame c
draw_or_wait (some target) d c = draw_into target d c

unfoldable pub render_frame : Drawing → Client → Client
unfolding first_free draw_into
render_frame d c =
    if not (c.configured && (c.running && not c.failed))
    then c
    else if c.in_draw
    then need_frame c
    else draw_or_wait (first_free c.buffers) d c

unfoldable pub frame_done : Drawing → Client → Client
unfolding render_frame request_frame
frame_done d old =
    let c = record old { frame_callback = false } in
    let t = render_frame d (record c { needs_frame = false }) in
    if not c.running then c else if t.needs_frame || c.needs_frame then request_frame t else t

-- The proxy of a buffer that is destroyed gets no events.
unfoldable pub holds : ℕ → List ShmBuffer → Bool
holds id [] = false
holds id (b ∷ bs) = b.id == id || holds id bs

unfoldable pub buffer_release : ℕ → Client → Client
unfolding holds set_busy request_frame
buffer_release id c =
    let t = record c { buffers = set_busy id false c.buffers } in
    if not (holds id c.buffers) then c else if t.needs_frame then request_frame t else t

-- Whether the states have `XDG_TOPLEVEL_STATE_MAXIMIZED`, which is 1.
unfoldable pub any_maximized : List ℕ → Bool
any_maximized [] = false
any_maximized (state ∷ states) = state == 1 || any_maximized states

unfoldable pub toplevel_configure : ℤ → ℤ → List ℕ → Client → Client
unfolding any_maximized
toplevel_configure width height states c = record c {
  pending_width = width;
  pending_height = height;
  maximized = any_maximized states;
}

abbrev pub chosen : ℤ → Bool → ℤ → ℤ → ℤ
chosen pending configured current requested =
    if leb_ℤ pending (pos 0) then (if configured then current else requested) else pending

abbrev pub equal_ℤ : ℤ → ℤ → Bool
equal_ℤ a b = not (ltb_ℤ a b) && not (ltb_ℤ b a)

-- Behind the test of the size.
unfoldable pub resize : ℤ → ℤ → Client → Client
unfolding destroy_buffers
resize width height c =
    if equal_ℤ width c.width && equal_ℤ height c.height
    then c
    else destroy_buffers (record c { width = width; height = height })

unfoldable pub xdg_surface_configure : ℕ → Allocation × Allocation → Drawing → Client → Client
unfolding resize create_buffers render_frame
xdg_surface_configure serial rounds d old =
    let c = send (ack_configure serial ∷ []) old in
    let width = chosen c.pending_width c.configured c.width c.requested_width in
    let height = chosen c.pending_height c.configured c.height c.requested_height in
    if leb_ℤ width (pos 0) || leb_ℤ height (pos 0)
    then c
    else render_frame d
        (create_buffers rounds (record (resize width height c) { configured = true })).0

abbrev pub taken : ℕ → ℤ → ℤ
taken size current = if ltb 0 size then to_int32 size else current

unfoldable pub layer_configure : ℕ → ℕ → ℕ → Allocation × Allocation → Drawing → Client → Client
unfolding create_buffers apply_input_region render_frame to_int32
layer_configure serial width height rounds d old =
    let c =
      send (ack_configure serial ∷ [])
        (record old { width = taken width old.width; height = taken height old.height }) in
    if leb_ℤ c.width (pos 0) || leb_ℤ c.height (pos 0)
    then c
    else render_frame d
        (apply_input_region (create_buffers rounds (record c { configured = true })).0)
