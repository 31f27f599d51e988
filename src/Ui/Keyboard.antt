-- ===== src/Ui/Keyboard.antt =====
-- The keyboard and the seat in src/ui/app.cpp. What libxkbcommon says of a key is a parameter.
use finn_os.Base.{ℕ, Bool, false, not, ◌&&◌, ◌||◌, [], ◌∷◌, ◌++◌, leb, ◌==◌, if◌then◌else◌}
use finn_os.Base.Int.{negsuc}
use finn_os.Text.Raw.{Bytes}
use finn_os.Ui.State.{
  Key, no_key, escape, enter, tab, backspace, del, left, right, up, down, home, end, KeyEvent,
  Client,
}
use finn_os.Ui.Surface.{request_frame}

-- The keysyms of `map_key`.
unfoldable pub map_key : ℕ → Key
map_key sym =
    if sym == 0xff1b
    then escape
    else if sym == 0xff0d || sym == 0xff8d
    then enter
    else if sym == 0xff09
    then tab
    else if sym == 0xff08
    then backspace
    else if sym == 0xffff
    then del
    else if sym == 0xff51
    then left
    else if sym == 0xff53
    then right
    else if sym == 0xff52
    then up
    else if sym == 0xff54
    then down
    else if sym == 0xff50
    then home
    else if sym == 0xff57
    then end
    else no_key

-- A key with the state's keysym, its modifiers and the text that it gives, at most 31 bytes.
pub record Pressed : Type 0 where
  pub sym : ℕ
  pub ctrl : Bool
  pub alt : Bool
  pub shift : Bool
  pub text : Bytes

abbrev pub event_of : Pressed → KeyEvent
event_of k = record {
  key = map_key k.sym;
  sym = k.sym;
  text = k.text;
  ctrl = k.ctrl;
  alt = k.alt;
  shift = k.shift;
}

-- No control characters.
abbrev shows : Bytes → Bool
shows [] = false
shows (c ∷ cs) = leb 0x20 c && not (c == 0x7f)

unfoldable pub typed : Pressed → Bytes
typed k = if not k.ctrl && (not k.alt && shows k.text) then k.text else []

-- `keyboard_key`; the flag is that it is pressed.
unfoldable pub keyboard_key : Bool → Pressed → Client → Client
unfolding request_frame map_key typed
keyboard_key pressed k c =
    if not (pressed && c.has_xkb_state)
    then c
    else request_frame (record c {
      input = record c.input {
        text = c.input.text ++ typed k;
        keys = c.input.keys ++ (event_of k ∷ []);
      };
    })

unfoldable pub keyboard_focus : Bool → Client → Client
keyboard_focus focused c = record c { input = record c.input { focused = focused } }

-- `keyboard_keymap`: whether the format is known and a context is there, the file can be mapped and
-- the map compiled, and the state made.
unfoldable pub keyboard_keymap : Bool → Bool → Client → Client
keyboard_keymap compiled made c = if compiled then record c { has_xkb_state = made } else c

-- `seat_capabilities`: the pointer, the keyboard and the touch screen come and go.
unfoldable pub seat_capabilities : Bool → Bool → Bool → Client → Client
seat_capabilities pointer keyboard touch c = record c {
  has_pointer = pointer;
  has_keyboard = keyboard;
  has_touch = touch;
  touch_id = if c.has_touch && not touch then negsuc 0 else c.touch_id;
}
