-- ===== src/Ui/Setup.antt =====
-- How a client of src/ui/app.cpp begins: `connect_display`, `create_surface`, `init_xdg` and
-- `init_layer`.
use finn_os.Base.{ℕ, Bool, true, false, not, ◌&&◌, List, [], ◌∷◌, is_empty, if◌then◌else◌}
use finn_os.Base.Int.{ℤ, pos, negsuc, ltb_ℤ}
use finn_os.Text.Raw.{Bytes, codes}
use finn_os.Ui.Names.{lowercase_hyphenated}
use finn_os.Ui.State.{
  Input, Mode, KeyboardMode, Client, send, commit, set_buffer_scale, set_title, set_app_id,
  get_layer_surface, set_anchor, set_size, set_exclusive_zone, set_keyboard_interactivity,
}
use finn_os.Ui.Outputs.{Global, announce}

abbrev pub idle_input : Input
idle_input = record {
  x = pos 0;
  y = pos 0;
  pointer_down = false;
  pointer_pressed = false;
  pointer_released = false;
  button = 0;
  scroll_x = pos 0;
  scroll_y = pos 0;
  focused = false;
  keys = [];
  text = [];
}

-- The initial values of the members.
abbrev pub new_client : Client
new_client = record {
  mode = Mode.xdg;
  has_compositor = false;
  has_shm = false;
  has_seat = false;
  has_wm_base = false;
  has_layer_shell = false;
  has_surface = false;
  has_toplevel = false;
  has_layer_surface = false;
  has_pointer = false;
  has_keyboard = false;
  has_touch = false;
  has_xkb_state = false;
  frame_callback = false;
  touch_id = negsuc 0;
  tick_ms = pos 0;
  outputs = [];
  scale = 1;
  buffers = [];
  next_buffer = 0;
  open_fds = 0;
  mapped = 0;
  input = idle_input;
  dark = false;
  interactive_rects = [];
  title = [];
  app_id = [];
  width = pos 0;
  height = pos 0;
  requested_width = pos 900;
  requested_height = pos 600;
  pending_width = pos 0;
  pending_height = pos 0;
  configured = false;
  running = true;
  failed = false;
  framed = true;
  needs_frame = false;
  in_draw = false;
  close_requested = false;
  closes = 0;
  maximized = false;
  theme_counter = 0;
  last_title_press = 0;
  layer_anchor = 15;
  layer_level = 3;
  keyboard_mode = KeyboardMode.on_demand;
  input_region = [];
  input_region_set = false;
  sent = [];
  seen = [];
}

-- What the compositor and the settings answer: whether the display is reached, the globals, whether
-- the roundtrip and the surface succeed, and the theme of `pick_theme`.
pub record Display : Type 0 where
  pub reached : Bool
  pub globals : List Global
  pub roundtrip : Bool
  pub surface : Bool
  pub picked_dark : Bool

abbrev pub fail : Client → Client
fail c = record c { failed = true }

unfoldable pub connect_display : Display → Client → Client
unfolding announce
connect_display display old =
    let c = announce display.globals old in
    if not display.reached
    then fail old
    else if not display.roundtrip
    then fail c
    else if not (c.has_compositor && c.has_shm)
    then fail c
    else c

abbrev app_id_or_default : Bytes → Bytes
app_id_or_default id = if is_empty id then codes "finn.app" else id

abbrev pub titled : Client → Client
titled c =
    send (set_title c.title ∷ set_app_id (app_id_or_default c.app_id) ∷ commit ∷ [])
      (record c { has_toplevel = true })

unfoldable pub create_toplevel : Client → Client
create_toplevel c = if not c.has_wm_base then fail c else titled c

abbrev pub layered : Client → Client
layered c =
    send
      (get_layer_surface c.layer_level c.title
        ∷ set_anchor c.layer_anchor
        ∷ set_size c.requested_width c.requested_height
        ∷ set_exclusive_zone 0
        ∷ set_keyboard_interactivity c.keyboard_mode
        ∷ commit
        ∷ [])
      (record c { has_layer_surface = true })

unfoldable pub create_layer : Client → Client
create_layer c = if not c.has_layer_shell then fail c else layered c

abbrev pub create_role : Mode → Client → Client
create_role Mode.xdg c = create_toplevel c
create_role Mode.layer c = create_layer c

unfoldable pub create_surface : Display → Client → Client
unfolding create_toplevel create_layer
create_surface display old =
    let c = send (set_buffer_scale old.scale ∷ []) (record old { has_surface = true }) in
    if not display.surface then fail old else create_role old.mode c

-- Behind the assignments of both `init_xdg` and `init_layer`.
unfoldable pub start : Display → Client → Client
unfolding connect_display create_surface
start display old =
    let c = connect_display display (record old { dark = display.picked_dark }) in
    if c.failed then c else create_surface display c

abbrev or_size : ℤ → ℕ → ℤ
or_size size default = if ltb_ℤ (pos 0) size then size else pos default

abbrev pub xdg_client : ℤ → ℤ → Bytes → Bytes → Client
xdg_client width height title app_id = record new_client {
  mode = Mode.xdg;
  requested_width = or_size width 900;
  requested_height = or_size height 600;
  title = title;
  app_id = if is_empty app_id then lowercase_hyphenated title else app_id;
}

unfoldable pub init_xdg : Display → ℤ → ℤ → Bytes → Bytes → Client
unfolding start lowercase_hyphenated
init_xdg display width height title app_id = start display (xdg_client width height title app_id)

abbrev pub layer_client : ℤ → ℤ → Bytes → ℕ → ℕ → KeyboardMode → Client
layer_client width height name anchor level mode = record new_client {
  mode = Mode.layer;
  requested_width = width;
  requested_height = height;
  title = name;
  layer_anchor = anchor;
  layer_level = level;
  keyboard_mode = mode;
}

unfoldable pub init_layer : Display → ℤ → ℤ → Bytes → ℕ → ℕ → KeyboardMode → Client
unfolding start
init_layer display width height name anchor level mode =
    start display (layer_client width height name anchor level mode)
