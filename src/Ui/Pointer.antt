-- ===== src/Ui/Pointer.antt =====
-- The pointer and the touch screen in src/ui/app.cpp, with the buttons of the window's frame.
use finn_os.Base.{
  ℕ, ◌+◌, Bool, true, false, not, ◌&&◌, ◌||◌, List, [], ◌∷◌, ltb, ◌==◌, if◌then◌else◌,
}
use finn_os.Base.Int.{ℤ, pos, negsuc, ◌+ℤ◌, ◌-ℤ◌, ltb_ℤ, to_fixed}
use finn_os.Ui.State.{
  Rect, contains, whole, Mode, Client, send, set_maximized, unset_maximized, start_move,
}
use finn_os.Ui.Surface.{request_frame, request_close}

-- `BTN_LEFT`.
abbrev pub btn_left : ℕ
btn_left = 0x110

unfoldable pub move_pointer : ℤ → ℤ → Client → Client
unfolding request_frame
move_pointer x y c = request_frame (record c { input = record c.input { x = x; y = y } })

-- The buttons in the corner of a window that is `width` wide.
abbrev pub pill : ℤ → Rect
pill width = whole (width -ℤ pos 91) (pos 8) (pos 83) (pos 24)

abbrev pub min_button : ℤ → Rect
min_button width = whole (width -ℤ pos 91 +ℤ pos 2) (pos 10) (pos 25) (pos 20)

abbrev pub max_button : ℤ → Rect
max_button width = whole (width -ℤ pos 91 +ℤ pos 29) (pos 10) (pos 25) (pos 20)

abbrev pub close_button : ℤ → Rect
close_button width = whole (width -ℤ pos 91 +ℤ pos 56) (pos 10) (pos 25) (pos 20)

unfoldable pub in_any : List Rect → ℤ → ℤ → Bool
in_any [] x y = false
in_any (r ∷ rs) x y = contains r x y || in_any rs x y

unfoldable pub toggle_maximized : Client → Client
toggle_maximized c =
    let t = record c { maximized = not c.maximized } in
    if t.maximized then send (set_maximized ∷ []) t else send (unset_maximized ∷ []) t

-- The time is in nanoseconds; two presses within 350 milliseconds are one double press.
abbrev pub double_press : ℕ
double_press = 350000000

abbrev pub title_height : ℤ
title_height = to_fixed (pos 44)

unfoldable pub title_press : ℕ → ℕ → Client → Client
unfolding toggle_maximized
title_press serial now c =
    let t =
      if ltb now (c.last_title_press + double_press)
      then toggle_maximized c
      else if c.has_seat
      then send (start_move serial ∷ []) c
      else c in
    record t { last_title_press = now }

abbrev pub is_xdg : Mode → Bool
is_xdg Mode.xdg = true
is_xdg Mode.layer = false

-- A press of the left button on a window with a frame, in reach of none of its buttons.
unfoldable pub body_press : ℕ → ℕ → Client → Client
unfolding request_frame contains in_any title_press
body_press serial now c =
    if contains (pill c.width) c.input.x c.input.y
    then c
    else if in_any c.interactive_rects c.input.x c.input.y
    then request_frame c
    else if ltb_ℤ c.input.y title_height
    then request_frame (title_press serial now c)
    else request_frame c

-- With the tests for the close, the maximise and the minimise button.
unfoldable pub press_on : Bool → Bool → Bool → ℕ → ℕ → Client → Client
unfolding request_frame request_close toggle_maximized body_press
press_on closes maximizes minimizes serial now c =
    if closes
    then request_close c
    else if maximizes
    then request_frame (toggle_maximized c)
    else if minimizes
    then c
    else body_press serial now c

unfoldable pub frame_press : ℕ → ℕ → Client → Client
unfolding press_on contains
frame_press serial now c =
    press_on (contains (close_button c.width) c.input.x c.input.y)
      (contains (max_button c.width) c.input.x c.input.y)
      (contains (min_button c.width) c.input.x c.input.y) serial now c

unfoldable pub press_pointer : ℕ → ℕ → ℕ → Client → Client
unfolding request_frame frame_press
press_pointer button serial now old =
    let c = record old {
      input = record old.input { pointer_down = true; pointer_pressed = true; button = button };
    } in
    if is_xdg c.mode && (c.framed && (button == btn_left && c.has_toplevel))
    then frame_press serial now c
    else request_frame c

unfoldable pub release_pointer : Client → Client
unfolding request_frame
release_pointer c =
    request_frame
      (record c { input = record c.input { pointer_down = false; pointer_released = true } })

abbrev pub nowhere : ℤ
nowhere = negsuc 255

-- The coordinates become -1.
unfoldable pub pointer_leave : Client → Client
unfolding request_frame
pointer_leave c = request_frame (record c { input = record c.input { x = nowhere; y = nowhere } })

unfoldable pub pointer_axis : Bool → ℤ → Client → Client
unfolding request_frame
pointer_axis horizontal value c = request_frame (record c {
  input =
      if horizontal
      then record c.input { scroll_x = c.input.scroll_x +ℤ value }
      else record c.input { scroll_y = c.input.scroll_y +ℤ value };
})

abbrev pub same_contact : ℤ → ℤ → Bool
same_contact a b = not (ltb_ℤ a b) && not (ltb_ℤ b a)

-- The first contact is the pointer's left button.
unfoldable pub touch_down : ℤ → ℤ → ℤ → ℕ → ℕ → Client → Client
unfolding move_pointer press_pointer
touch_down id x y serial now c =
    if ltb_ℤ c.touch_id (pos 0)
    then press_pointer btn_left serial now (move_pointer x y (record c { touch_id = id }))
    else c

unfoldable pub touch_up : ℤ → Client → Client
unfolding release_pointer
touch_up id c =
    if same_contact c.touch_id id then release_pointer (record c { touch_id = negsuc 0 }) else c

unfoldable pub touch_motion : ℤ → ℤ → ℤ → Client → Client
unfolding move_pointer
touch_motion id x y c = if same_contact c.touch_id id then move_pointer x y c else c

unfoldable pub touch_cancel : Client → Client
unfolding request_frame
touch_cancel c =
    if ltb_ℤ c.touch_id (pos 0)
    then c
    else request_frame (record c {
      touch_id = negsuc 0;
      input = record c.input {
        pointer_down = false;
        pointer_pressed = false;
        pointer_released = false;
        x = nowhere;
        y = nowhere;
      };
    })
