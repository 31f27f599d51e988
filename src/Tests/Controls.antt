-- ===== src/Tests/Controls.antt =====
-- Runs of the controls of src/ui/canvas.cpp.
use finn_os.Base.{◌≡◌, refl, true, false, ◌&&◌, ◌||◌, [], ◌∷◌, ◌++◌}
use finn_os.Base.Int.{pos, to_fixed, ◌+ℤ◌}
use finn_os.Text.Raw.{Bytes, codes, equal}
use finn_os.Ui.State.{Rect, contains, whole, Key, KeyEvent, Input}
use finn_os.Ui.Setup.{idle_input}
use finn_os.Ui.Widgets.{
  Canvas, active_of, set_active, begin, hovers, press_control, button, erase, pop_continuations,
  pop_back, take_keys, focus_field, type_into, text_field,
}
use finn_os.Ui.Widgets.Clicking.{after_frames, any_press, since_release, button-clicked}
use finn_os.Ui.Widgets.Typing.{
  erased, backspaces, any_enter, is_char, all_chars, joined, text_field_lem, text_field-restored,
}

abbrev canvas : Canvas
canvas = record { states = []; focus = codes "name"; interactive_rects = []; input = idle_input }

abbrev area : Rect
area = whole (pos 10) (pos 10) (pos 100) (pos 40)

-- The pointer in the area.
abbrev inside : Input
inside = record idle_input { x = pos 5120; y = pos 5120 }

abbrev press : Input
press = record inside { pointer_down = true; pointer_pressed = true }

abbrev release : Input
release = record inside { pointer_released = true }

button_pressed :
    (button
      (codes "ok")
      area
      true
      (begin release (after_frames (codes "ok") area (inside ∷ press ∷ []) canvas))).1
    ≡ true
unfolding button press_control begin after_frames active_of set_active equal contains to_fixed ◌+ℤ◌
button_pressed = refl

button-clicked_example :
    (button
      (codes "ok")
      area
      true
      (begin release (after_frames (codes "ok") area (inside ∷ press ∷ []) canvas))).1
    ≡ (release.pointer_released
        && hovers area release
        && ((hovers area release && release.pointer_pressed)
            || any_press area (since_release (inside ∷ press ∷ []))))
unfolding active_of
button-clicked_example = button-clicked (codes "ok") area release (inside ∷ press ∷ []) canvas refl

abbrev key_event : Key → Bytes → KeyEvent
key_event key text = record {
  key = key;
  sym = 0;
  text = text;
  ctrl = false;
  alt = false;
  shift = false;
}

-- `a`, `b`, a backspace and `c`, in one frame.
abbrev mixed : Input
mixed = record idle_input {
  keys =
      key_event Key.no_key (codes "a")
      ∷ key_event Key.no_key (codes "b")
      ∷ key_event Key.backspace []
      ∷ key_event Key.no_key (codes "c")
      ∷ [];
  text = codes "abc";
}

-- The backspace takes the `c` that came after it.
typed_mixed : (text_field (codes "name") area [] (record canvas { input = mixed })).1 ≡ codes "ab"
unfolding text_field type_into focus_field take_keys erase pop_continuations pop_back equal
typed_mixed = refl

text_field_lem_example :
    ((text_field (codes "name") area [] (record canvas { input = mixed })).1
      ≡ erased (backspaces mixed.keys) ([] ++ mixed.text))
    × ((text_field (codes "name") area [] (record canvas { input = mixed })).2
        ≡ any_enter mixed.keys)
text_field_lem_example =
    text_field_lem (codes "name") area [] (record canvas { input = mixed }) refl refl

-- An accented letter of two bytes and a backspace.
abbrev accented : Input
accented = record idle_input {
  keys = key_event Key.no_key (0xc3 ∷ 0xa9 ∷ []) ∷ key_event Key.backspace [] ∷ [];
  text = 0xc3 ∷ 0xa9 ∷ [];
}

text_field-restored_example :
    (text_field (codes "name") area (codes "caf") (record canvas { input = accented })).1
    ≡ codes "caf"
unfolding all_chars is_char joined backspaces
text_field-restored_example =
    text_field-restored (codes "name") area (codes "caf") ((0xc3 ∷ 0xa9 ∷ []) ∷ [])
      (record canvas { input = accented }) refl refl refl refl refl
