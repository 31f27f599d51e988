-- ===== src/Comp/State.antt =====
-- The state of `Server` in src/comp/server.hpp. A pointer is the number of the object that it
-- points to; the fields of the wlroots objects that the server sets stand with the window.
use finn_os.Base.{ℕ, Bool, Option, List}
use finn_os.Base.Int.{ℤ}

pub record Box : Type 0 where
  pub x : ℤ
  pub y : ℤ
  pub width : ℤ
  pub height : ℤ

-- `Server::Toplevel`, then `scene_tree->node.{x,y}`, `xdg_toplevel->base->geometry`, the size last
-- asked for by `wlr_xdg_toplevel_set_size`, and the flags of `set_activated` and `set_maximized`.
pub record Toplevel : Type 0 where
  pub id : ℕ
  pub opened_once : Bool
  pub opening : Bool
  pub open_start_ms : ℕ
  pub open_from_y : ℤ
  pub open_to_y : ℤ
  pub maximized : Bool
  pub restore_x : ℤ
  pub restore_y : ℤ
  pub restore_w : ℤ
  pub restore_h : ℤ
  pub node_x : ℤ
  pub node_y : ℤ
  pub geometry : Box
  pub asked_w : ℤ
  pub asked_h : ℤ
  pub activated : Bool
  pub shown_maximized : Bool

-- `Server::Layer`.
pub record Layer : Type 0 where
  pub id : ℕ
  pub configured : Bool

-- `Server::Output`, with its logical size.
pub record Output : Type 0 where
  pub id : ℕ
  pub logical_w : ℤ
  pub logical_h : ℤ

pub data CursorMode : Type 0 where
  passthrough move resize : CursorMode

-- The surface that has the keyboard.
pub data Surface : Type 0 where
  window : ℕ → Surface
  panel : ℕ → Surface

-- The bits of `resize_edges_` that the code tests.
pub record Edges : Type 0 where
  pub top : Bool
  pub bottom : Bool
  pub left : Bool
  pub right : Bool

-- The members of `Server`, then what the seat, the cursor and the scene hold: the surface with the
-- keyboard, whether `wlr_seat_get_keyboard` gives one, the pointer, and the windows from the top.
pub record Server : Type 0 where
  pub outputs : List Output
  pub toplevels : List Toplevel
  pub layers : List Layer
  pub focused : Option ℕ
  pub last_focused : Option ℕ
  pub focused_layer : Option ℕ
  pub cursor_mode : CursorMode
  pub grabbed : Option ℕ
  pub grab_x : ℤ
  pub grab_y : ℤ
  pub grab_gx : ℤ
  pub grab_gy : ℤ
  pub grab_gw : ℤ
  pub grab_gh : ℤ
  pub resize_edges : Edges
  pub usable : Box
  pub reduced_motion : Bool
  pub terminated : Bool
  pub keyboard_focus : Option Surface
  pub has_keyboard : Bool
  pub cursor_x : ℤ
  pub cursor_y : ℤ
  pub stacking : List ℕ
