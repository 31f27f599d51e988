-- ===== src/Comp/Animation.antt =====
-- The opening animation of src/comp/server.cpp, with the curve in exact fractions: the time is
-- in 220ths of the animation, and the eased value in units of 1/220³.
use finn_os.Base.{ℕ, ◌-◌, ◌*◌, ◌/◌, Bool, true, false, not, ◌||◌, List, [], ◌∷◌, leb, if◌then◌else◌}
use finn_os.Base.Int.{pos, ◌+ℤ◌, ◌-ℤ◌}
use finn_os.Comp.State.{Toplevel, Server}
use finn_os.Comp.Windows.{update}

abbrev pub open_ms : ℕ
open_ms = 220

abbrev pub open_rise : ℕ
open_rise = 14

abbrev pub cube : ℕ → ℕ
cube n = n * n * n

-- `std::min(1.0, elapsed / 220.0)`.
abbrev pub progress : ℕ → ℕ
progress elapsed = if leb open_ms elapsed then open_ms else elapsed

-- `ease_out_cubic`: 1 - (1 - k)³.
unfoldable pub eased : ℕ → ℕ
eased elapsed = cube open_ms - cube (open_ms - progress elapsed)

-- The rise so far: `static_cast<int>(-14 * eased + 0.5)` with its sign turned. Up to a half the
-- cast gives 0, as the subtraction here does.
unfoldable pub risen : ℕ → ℕ
unfolding eased
risen elapsed = (2 * open_rise * eased elapsed - cube open_ms) / (2 * cube open_ms)

unfoldable pub open_from : ℕ → Toplevel → Toplevel
open_from now t = record t {
  opened_once = true;
  opening = true;
  open_start_ms = now;
  open_to_y = t.node_y;
  open_from_y = t.node_y +ℤ pos open_rise;
  node_y = t.node_y +ℤ pos open_rise;
}

-- `begin_open_animation` on the window; the flag is `reduced_motion()`.
unfoldable pub begin_open : Bool → ℕ → Toplevel → Toplevel
unfolding open_from
begin_open reduced now t =
    if t.opened_once || reduced then record t { opened_once = true } else open_from now t

unfoldable pub begin_open_animation : ℕ → ℕ → Server → Server
unfolding begin_open
begin_open_animation i now s = record s {
  toplevels = update i (begin_open s.reduced_motion now) s.toplevels;
}

-- One window in the loop of `animate_windows`.
unfoldable pub animate : ℕ → Toplevel → Toplevel
unfolding risen
animate now t =
    if not t.opening
    then t
    else if leb open_ms (now - t.open_start_ms)
    then record t { opening = false; node_y = t.open_to_y }
    else record t { node_y = t.open_from_y -ℤ pos (risen (now - t.open_start_ms)) }

unfoldable pub animate_all : ℕ → List Toplevel → List Toplevel
animate_all now [] = []
animate_all now (t ∷ ts) = animate now t ∷ animate_all now ts

-- Some window is still opening: the timer is armed again.
unfoldable pub is_active : List Toplevel → Bool
is_active [] = false
is_active (t ∷ ts) = t.opening || is_active ts

-- The server behind a turn of the timer, and whether the timer is armed.
unfoldable pub animate_windows : ℕ → Server → Server × Bool
unfolding animate_all animate is_active
animate_windows now s =
    let moved = animate_all now s.toplevels in (record s { toplevels = moved }, is_active moved)
