-- ===== src/Ui/Widgets/Clicking.antt =====
-- When a control of src/ui/canvas.cpp is clicked.
use finn_os.Base.{◌≡◌, Bool, true, false, not, ◌&&◌, ◌||◌, List, [], ◌∷◌, arith, if◌then◌else◌}
use finn_os.Text.Raw.{Bytes, equal_refl}
use finn_os.Ui.State.{Rect, Input, contains}
use finn_os.Ui.Widgets.{Canvas, active_of, set_active, begin, hovers, press_control, button}

active_of-set_active :
    (id : Bytes) (active : Bool) (states : List (Bytes × Bool))
    → active_of id (set_active id active states) ≡ active
unfolding active_of set_active
active_of-set_active id active [] = let same = equal_refl id in ground arith
active_of-set_active id active (s ∷ ss) =
    let same = equal_refl id in let rest = active_of-set_active id active ss in ground arith

-- A button over frames, the latest first.
unfoldable pub after_frames : Bytes → Rect → List Input → Canvas → Canvas
unfolding begin button
after_frames id rect [] c = c
after_frames id rect (input ∷ older) c =
    (button id rect true (begin input (after_frames id rect older c))).0

-- The frames since the last release, and whether one of them pressed the button.
unfoldable pub since_release : List Input → List Input
since_release [] = []
since_release (input ∷ older) =
    let rest = since_release older in if input.pointer_released then [] else input ∷ rest

unfoldable pub any_press : Rect → List Input → Bool
unfolding contains
any_press rect [] = false
any_press rect (input ∷ older) =
    (hovers rect input && input.pointer_pressed) || any_press rect older

active-after_frames :
    (id : Bytes) (rect : Rect) (frames : List Input) (c : Canvas)
    → active_of id c.states ≡ false
    → active_of id (after_frames id rect frames c).states ≡ any_press rect (since_release frames)
unfolding after_frames since_release any_press begin button press_control
active-after_frames id rect [] c h = h
active-after_frames id rect (input ∷ older) c h =
    let before = active-after_frames id rect older c h in
    let t = after_frames id rect older c in
    let active = active_of id t.states || (hovers rect input && input.pointer_pressed) in
    let now = active_of-set_active id (active && not input.pointer_released) t.states in
    ground arith

-- A button that was not held at the start is clicked in a frame exactly if that frame releases the
-- pointer over the button, and it or an earlier frame since the last release pressed the button.
pub button-clicked :
    (id : Bytes) (rect : Rect) (input : Input) (older : List Input) (c : Canvas)
    → active_of id c.states ≡ false
    → (button id rect true (begin input (after_frames id rect older c))).1 ≡ (
        input.pointer_released
        && hovers rect input
        && ((hovers rect input && input.pointer_pressed) || any_press rect (since_release older)))
unfolding button press_control begin
button-clicked id rect input older c h =
    let before = active-after_frames id rect older c h in ground arith
