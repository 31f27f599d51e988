-- ===== src/Ui/State.antt =====
-- The state of `Client` in src/ui/app.cpp, and the input of src/ui/finn/ui.hpp.
use finn_os.Base.{ℕ, Bool, ◌&&◌, List, ◌++◌}
use finn_os.Base.Int.{ℤ, ◌+ℤ◌, leb_ℤ, ltb_ℤ, to_fixed}
use finn_os.Text.Raw.{Bytes}

-- Coordinates are doubles in the source, and stand here in units of 1/256, as `wl_fixed_t` does.
pub record Rect : Type 0 where
  pub x : ℤ
  pub y : ℤ
  pub w : ℤ
  pub h : ℤ

unfoldable pub contains : Rect → ℤ → ℤ → Bool
contains r px py =
    leb_ℤ r.x px && (leb_ℤ r.y py && (ltb_ℤ px (r.x +ℤ r.w) && ltb_ℤ py (r.y +ℤ r.h)))

-- A rectangle of whole units.
abbrev pub whole : ℤ → ℤ → ℤ → ℤ → Rect
whole x y w h = record { x = to_fixed x; y = to_fixed y; w = to_fixed w; h = to_fixed h }

pub data Key : Type 0 where
  no_key escape enter tab backspace del left right up down home end : Key

pub record KeyEvent : Type 0 where
  pub key : Key
  pub sym : ℕ
  pub text : Bytes
  pub ctrl : Bool
  pub alt : Bool
  pub shift : Bool

pub record Input : Type 0 where
  pub x : ℤ
  pub y : ℤ
  pub pointer_down : Bool
  pub pointer_pressed : Bool
  pub pointer_released : Bool
  pub button : ℕ
  pub scroll_x : ℤ
  pub scroll_y : ℤ
  pub focused : Bool
  pub keys : List KeyEvent
  pub text : Bytes

-- `ShmBuffer`: its number stands for the `wl_buffer`.
pub record ShmBuffer : Type 0 where
  pub id : ℕ
  pub bytes : ℕ
  pub busy : Bool

-- `Client::OutputEntry`.
pub record OutputEntry : Type 0 where
  pub name : ℕ
  pub scale : ℤ
  pub mode_width : ℤ
  pub mode_height : ℤ

pub data Mode : Type 0 where
  xdg layer : Mode

pub data KeyboardMode : Type 0 where
  no_keyboard exclusive on_demand : KeyboardMode

-- What the client asks the compositor for.
pub data Request : Type 0 where
  commit frame set_maximized unset_maximized : Request
  attach : ℕ → Request
  damage : ℤ → ℤ → Request
  set_buffer_scale : ℕ → Request
  set_input_region : List Rect → Request
  set_keyboard_interactivity : KeyboardMode → Request
  start_move set_anchor set_exclusive_zone : ℕ → Request
  get_layer_surface : ℕ → Bytes → Request
  set_size : ℤ → ℤ → Request
  ack_configure pong : ℕ → Request
  set_title set_app_id : Bytes → Request

-- The members of `Client`. A pointer to an object of Wayland is the flag that it is not null.
-- `next_buffer` numbers the buffers; `open_fds` and `mapped` count the file descriptors and the
-- maps that the client holds, `closes` the calls of `close_`; `sent` are the requests so far, and
-- `seen` the input of each frame that was drawn.
pub record Client : Type 0 where
  pub mode : Mode
  pub has_compositor : Bool
  pub has_shm : Bool
  pub has_seat : Bool
  pub has_wm_base : Bool
  pub has_layer_shell : Bool
  pub has_surface : Bool
  pub has_toplevel : Bool
  pub has_layer_surface : Bool
  pub has_pointer : Bool
  pub has_keyboard : Bool
  pub has_touch : Bool
  pub has_xkb_state : Bool
  pub frame_callback : Bool
  pub touch_id : ℤ
  pub tick_ms : ℤ
  pub outputs : List OutputEntry
  pub scale : ℕ
  pub buffers : List ShmBuffer
  pub next_buffer : ℕ
  pub open_fds : ℕ
  pub mapped : ℕ
  pub input : Input
  pub dark : Bool
  pub interactive_rects : List Rect
  pub title : Bytes
  pub app_id : Bytes
  pub width : ℤ
  pub height : ℤ
  pub requested_width : ℤ
  pub requested_height : ℤ
  pub pending_width : ℤ
  pub pending_height : ℤ
  pub configured : Bool
  pub running : Bool
  pub failed : Bool
  pub framed : Bool
  pub needs_frame : Bool
  pub in_draw : Bool
  pub close_requested : Bool
  pub closes : ℕ
  pub maximized : Bool
  pub theme_counter : ℕ
  pub last_title_press : ℕ
  pub layer_anchor : ℕ
  pub layer_level : ℕ
  pub keyboard_mode : KeyboardMode
  pub input_region : List Rect
  pub input_region_set : Bool
  pub sent : List Request
  pub seen : List Input

abbrev pub send : List Request → Client → Client
send requests c = record c { sent = c.sent ++ requests }
