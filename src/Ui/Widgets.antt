-- ===== src/Ui/Widgets.antt =====
-- The controls of src/ui/canvas.cpp: what they remember between two frames, and what they answer.
-- How they look is left out.
pub mod Clicking
pub mod Typing
use finn_os.Base.{
  ℕ, Bool, true, false, not, ◌&&◌, ◌||◌, List, [], ◌∷◌, ◌++◌, is_empty, leb, ltb, if◌then◌else◌,
}
use finn_os.Text.Raw.{Bytes, equal}
use finn_os.Ui.State.{Rect, contains, Key, KeyEvent, Input}

-- `Canvas::Impl`: whether each control is held, by its id; the field with the focus; the controls
-- of the frame; its input.
pub record Canvas : Type 0 where
  pub states : List (Bytes × Bool)
  pub focus : Bytes
  pub interactive_rects : List Rect
  pub input : Input

-- `state_for`, for its member `active`.
unfoldable pub active_of : Bytes → List (Bytes × Bool) → Bool
unfolding equal
active_of id [] = false
active_of id (s ∷ ss) = let rest = active_of id ss in if equal s.0 id then s.1 else rest

unfoldable pub set_active : Bytes → Bool → List (Bytes × Bool) → List (Bytes × Bool)
unfolding equal
set_active id active [] = (id, active) ∷ []
set_active id active (s ∷ ss) =
    let rest = set_active id active ss in if equal s.0 id then (id, active) ∷ ss else s ∷ rest

unfoldable pub begin : Input → Canvas → Canvas
begin input c = record c { input = input; interactive_rects = [] }

abbrev pub hovers : Rect → Input → Bool
hovers rect input = contains rect input.x input.y

abbrev pub track_rect : Rect → Canvas → Canvas
track_rect rect c = record c { interactive_rects = c.interactive_rects ++ (rect ∷ []) }

-- What every control that is clicked begins with: a press holds it, and a release ends that, with a
-- click where the pointer is still there.
unfoldable pub press_control : Bytes → Rect → Bool → Canvas → Canvas × Bool
unfolding active_of set_active
press_control id rect enabled c =
    let hovered = enabled && hovers rect c.input in
    let active = active_of id c.states || (hovered && c.input.pointer_pressed) in
    let released = active && c.input.pointer_released in
    (
      record c { states = set_active id (active && not c.input.pointer_released) c.states },
      released && hovered,
    )

unfoldable pub button : Bytes → Rect → Bool → Canvas → Canvas × Bool
unfolding press_control
button id rect enabled c = press_control id rect enabled (track_rect rect c)

unfoldable pub icon_button : Bytes → Rect → Bool → Canvas → Canvas × Bool
unfolding press_control
icon_button id rect enabled c = press_control id rect enabled (track_rect rect c)

unfoldable pub app_icon_button : Bytes → Rect → Canvas → Canvas × Bool
unfolding press_control
app_icon_button id rect c = press_control id rect true (track_rect rect c)

-- With the value behind it.
unfoldable pub toggle : Bytes → Rect → Bool → Canvas → Canvas × Bool × Bool
unfolding press_control
toggle id rect value c =
    let pressed = press_control id rect true (track_rect rect c) in
    (pressed.0, if pressed.1 then not value else value, pressed.1)

unfoldable pub list_item : Bytes → Rect → Canvas → Canvas × Bool
unfolding press_control
list_item id rect c = press_control id rect true c

unfoldable pub list_item_icon : Bytes → Rect → Bool → Canvas → Canvas × Bool
unfolding press_control
list_item_icon id rect enabled c = press_control id rect enabled c

unfoldable pub app_list_item : Bytes → Rect → Bool → Canvas → Canvas × Bool
unfolding press_control
app_list_item id rect enabled c = press_control id rect enabled c

unfoldable pub sidebar_item : Bytes → Rect → Bool → Canvas → Canvas × Bool
unfolding press_control
sidebar_item id rect enabled c = press_control id rect enabled (track_rect rect c)

-- The text field.

-- `(c & 0xC0) == 0x80` for a byte.
abbrev pub is_continuation : ℕ → Bool
is_continuation c = leb 0x80 c && ltb c 0xc0

abbrev pub keep_unless_continuation : ℕ → Bytes → Bytes
keep_unless_continuation c [] = if is_continuation c then [] else c ∷ []
keep_unless_continuation c (d ∷ ds) = c ∷ d ∷ ds

unfoldable pub pop_continuations : Bytes → Bytes
pop_continuations [] = []
pop_continuations (c ∷ cs) = keep_unless_continuation c (pop_continuations cs)

unfoldable pub pop_back : Bytes → Bytes
pop_back [] = []
pop_back (c ∷ []) = []
pop_back (c ∷ (d ∷ ds)) = c ∷ pop_back (d ∷ ds)

unfoldable pub erase : Bytes → Bytes
unfolding pop_continuations pop_back
erase value = pop_back (pop_continuations value)

abbrev pub is_backspace : Key → Bool
is_backspace Key.backspace = true
is_backspace _ = false

abbrev pub is_enter : Key → Bool
is_enter Key.enter = true
is_enter _ = false

-- The loop over the keys; the flag is that it returns at an enter.
unfoldable pub take_keys : List KeyEvent → Bytes → Bytes × Bool
unfolding erase
take_keys [] value = (value, false)
take_keys (event ∷ events) value =
    let erases = is_backspace event.key && not (is_empty value) in
    let rest = take_keys events (if erases then erase value else value) in
    if is_enter event.key then (value, true) else rest

-- A press gives or takes the focus.
unfoldable pub focus_field : Bytes → Rect → Canvas → Canvas
unfolding equal active_of set_active
focus_field id rect c =
    if not c.input.pointer_pressed
    then c
    else if hovers rect c.input
    then record c { focus = id; states = set_active id true c.states }
    else if equal c.focus id
    then record c { focus = []; states = set_active id false c.states }
    else c

-- Behind the focus: the canvas, the value and whether an enter was pressed.
unfoldable pub type_into : Bytes → Bytes → Canvas → Canvas × Bytes × Bool
unfolding take_keys equal
type_into id value c =
    let taken = take_keys c.input.keys (value ++ c.input.text) in
    if equal c.focus id
    then (record c { input = record c.input { text = [] } }, taken.0, taken.1)
    else (c, value, false)

unfoldable pub text_field : Bytes → Rect → Bytes → Canvas → Canvas × Bytes × Bool
unfolding focus_field type_into
text_field id rect value c = type_into id value (focus_field id rect (track_rect rect c))
