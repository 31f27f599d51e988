-- ===== src/Ui/Surface.antt =====
-- The surface of the client of src/ui/app.cpp: asking for frames, its title, its input region, the
-- keyboard it wants, and its end.
use finn_os.Base.{
  suc, Bool, true, false, not, ◌&&◌, ◌||◌, List, [], ◌∷◌, map, is_empty, if◌then◌else◌,
}
use finn_os.Base.Int.{ℤ, ltb_ℤ, to_int, to_fixed}
use finn_os.Text.Raw.{Bytes}
use finn_os.Ui.Names.{lowercase_hyphenated}
use finn_os.Ui.State.{
  Rect, KeyboardMode, Client, send, commit, frame, set_input_region, set_keyboard_interactivity,
  set_title, set_app_id,
}

abbrev pub need_frame : Client → Client
need_frame c = record c { needs_frame = true }

unfoldable pub request_frame : Client → Client
request_frame c =
    if not (c.configured && (c.running && c.has_surface))
    then need_frame c
    else if c.in_draw || c.frame_callback
    then need_frame c
    else send (frame ∷ commit ∷ []) (record c { frame_callback = true })

unfoldable pub set_framed : Bool → Client → Client
unfolding request_frame
set_framed framed c = request_frame (record c { framed = framed })

-- What the toplevel is told: the title, and an app id made of it where there is none.
unfoldable pub name_toplevel : Bytes → Client → Client
name_toplevel title c =
    let named = send (set_title title ∷ []) c in
    let app_id = lowercase_hyphenated title in
    if not c.has_toplevel
    then c
    else if is_empty c.app_id && not (is_empty title)
    then send (set_app_id app_id ∷ []) (record named { app_id = app_id })
    else named

unfoldable pub retitle : Bytes → Client → Client
unfolding request_frame name_toplevel
retitle title c = request_frame (name_toplevel title (record c { title = title }))

abbrev equal_ℤ : ℤ → ℤ → Bool
equal_ℤ a b = not (ltb_ℤ a b) && not (ltb_ℤ b a)

abbrev same_rect : Rect → Rect → Bool
same_rect a b = equal_ℤ a.x b.x && (equal_ℤ a.y b.y && (equal_ℤ a.w b.w && equal_ℤ a.h b.h))

unfoldable pub same_rects : List Rect → List Rect → Bool
same_rects [] [] = true
same_rects (a ∷ as') (b ∷ bs) = same_rect a b && same_rects as' bs
same_rects _ _ = false

-- The casts to `int32_t`.
abbrev pub cut_rect : Rect → Rect
cut_rect r = record {
  x = to_fixed (to_int r.x);
  y = to_fixed (to_int r.y);
  w = to_fixed (to_int r.w);
  h = to_fixed (to_int r.h);
}

unfoldable pub apply_input_region : Client → Client
apply_input_region c =
    if c.has_surface && (c.input_region_set && c.has_compositor)
    then send (set_input_region (map cut_rect c.input_region) ∷ commit ∷ []) c
    else c

unfoldable pub restrict_input : List Rect → Client → Client
unfolding same_rects apply_input_region
restrict_input rects c =
    if c.input_region_set && same_rects rects c.input_region
    then c
    else apply_input_region (record c { input_region = rects; input_region_set = true })

abbrev same_mode : KeyboardMode → KeyboardMode → Bool
same_mode KeyboardMode.no_keyboard KeyboardMode.no_keyboard = true
same_mode KeyboardMode.exclusive KeyboardMode.exclusive = true
same_mode KeyboardMode.on_demand KeyboardMode.on_demand = true
same_mode _ _ = false

unfoldable pub set_keyboard_mode : KeyboardMode → Client → Client
set_keyboard_mode mode c =
    let t = record c { keyboard_mode = mode } in
    if c.has_layer_surface && same_mode mode c.keyboard_mode
    then c
    else if c.has_layer_surface
    then send (set_keyboard_interactivity mode ∷ commit ∷ []) t
    else t

unfoldable pub request_close : Client → Client
request_close c =
    if c.close_requested
    then c
    else record c { close_requested = true; running = false; closes = suc c.closes }

-- What the app calls while it draws or ticks.
pub data AppCall : Type 0 where
  ask_frame : AppCall
  use_frame : Bool → AppCall
  use_title : Bytes → AppCall
  use_region : List Rect → AppCall
  use_keyboard : KeyboardMode → AppCall
  use_tick : ℤ → AppCall

unfoldable pub app_call : AppCall → Client → Client
unfolding request_frame set_framed retitle restrict_input set_keyboard_mode
app_call ask_frame c = request_frame c
app_call (use_frame framed) c = set_framed framed c
app_call (use_title title) c = retitle title c
app_call (use_region rects) c = restrict_input rects c
app_call (use_keyboard mode) c = set_keyboard_mode mode c
app_call (use_tick ms) c = record c { tick_ms = ms }

unfoldable pub app_calls : List AppCall → Client → Client
app_calls [] c = c
app_calls (call ∷ calls) c = app_calls calls (app_call call c)
