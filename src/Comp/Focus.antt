-- ===== src/Comp/Focus.antt =====
-- Who has the keyboard: `focus`, `focus_layer`, the removals and the shortcuts of
-- src/comp/server.cpp.
use finn_os.Base.{
  ℕ, zero, suc, ◌+◌, ◌%◌, Bool, true, false, not, ◌||◌, Option, none, some, List, [], ◌∷◌, ◌==◌,
  length, if◌then◌else◌,
}
use finn_os.Comp.State.{Toplevel, CursorMode, Surface, window, panel, Server}
use finn_os.Comp.Windows.{update, remove, remove_layer_of}

-- A pointer compared with an object.
abbrev pub points_to : Option ℕ → ℕ → Bool
points_to none i = false
points_to (some j) i = j == i

-- `if (pointer == object) pointer = nullptr;`
abbrev pub cleared : Option ℕ → ℕ → Option ℕ
cleared o i = if points_to o i then none else o

abbrev pub is_window : Option Surface → ℕ → Bool
is_window none i = false
is_window (some (window j)) i = j == i
is_window (some (panel j)) i = false

abbrev pub activate : Bool → Toplevel → Toplevel
activate on t = record t { activated = on }

unfoldable pub set_activated : ℕ → Bool → Server → Server
set_activated i on s = record s { toplevels = update i (activate on) s.toplevels }

abbrev without : ℕ → List ℕ → List ℕ
without i [] = []
without i (j ∷ js) = if j == i then without i js else j ∷ without i js

abbrev pub raise_to_top : ℕ → List ℕ → List ℕ
raise_to_top i js = i ∷ without i js

-- The surface that had the keyboard is deactivated if it is a window's.
unfoldable pub deactivate : Option Surface → Server → Server
unfolding set_activated
deactivate none s = s
deactivate (some (window j)) s = set_activated j false s
deactivate (some (panel j)) s = s

unfoldable pub focus_window : ℕ → Server → Server
unfolding set_activated deactivate
focus_window i s =
    if is_window s.keyboard_focus i
    then s
    else (let t = set_activated i true (deactivate s.keyboard_focus s) in
        record t {
          keyboard_focus = if s.has_keyboard then some (window i) else s.keyboard_focus;
          focused = some i;
          last_focused = some i;
          focused_layer = none;
          stacking = raise_to_top i s.stacking;
        })

unfoldable pub focus : Option ℕ → Server → Server
unfolding focus_window
focus none s = s
focus (some i) s = focus_window i s

-- The window that was focused when a panel takes the keyboard.
abbrev pub drop_focus : Option ℕ → Server → Server
drop_focus none s = s
drop_focus (some i) s = record (set_activated i false s) { focused = none }

-- The two tests of the panel's surface are arguments.
unfoldable pub focus_layer : ℕ → Bool → Bool → Server → Server
unfolding set_activated
focus_layer i mapped interactive s =
    if not mapped
    then s
    else if not interactive
    then s
    else if not s.has_keyboard
    then s
    else record (drop_focus s.focused (record s { keyboard_focus = some (panel i) })) {
      focused_layer = some i;
    }

unfoldable pub reset_cursor_mode : Server → Server
reset_cursor_mode s = record s { cursor_mode = CursorMode.passthrough; grabbed = none }

unfoldable pub remove_toplevel : ℕ → Server → Server
unfolding reset_cursor_mode
remove_toplevel i s =
    let t = record s { focused = cleared s.focused i; last_focused = cleared s.last_focused i } in
    let u = if points_to s.grabbed i then reset_cursor_mode t else t in
    record u { toplevels = remove i s.toplevels; stacking = without i s.stacking }

-- The panel gives the keyboard back to the window that had it last.
unfoldable pub release_layer : ℕ → Server → Server
unfolding focus
release_layer i s =
    if points_to s.focused_layer i
    then focus s.last_focused (record s { focused_layer = none; keyboard_focus = none })
    else s

unfoldable pub remove_layer : ℕ → Server → Server
unfolding release_layer
remove_layer i s = let t = release_layer i s in record t { layers = remove_layer_of i t.layers }

pub data KeySym : Type 0 where
  escape f1 other_key : KeySym

-- `std::find_if` over the windows: the distance from the first one.
unfoldable pub index_of : Option ℕ → List Toplevel → Option ℕ
index_of o [] = none
index_of o (t ∷ ts) =
    let rest = index_of o ts in
    if points_to o t.id then some 0 else elim rest [ none ↦ none | some n ↦ some (n + 1) ]

unfoldable pub id_at : ℕ → List Toplevel → Option ℕ
id_at n [] = none
id_at zero (t ∷ ts) = some t.id
id_at (suc n) (t ∷ ts) = id_at n ts

-- The index that F1 goes to.
abbrev pub next_index : Option ℕ → ℕ → ℕ
next_index none size = 0
next_index (some n) size = (n + 1) % size

unfoldable pub handle_keybinding : KeySym → Server → Server × Bool
unfolding focus index_of id_at
handle_keybinding escape s = (record s { terminated = true }, true)
handle_keybinding f1 s = (
  focus (id_at (next_index (index_of s.focused s.toplevels) (length s.toplevels)) s.toplevels) s,
  true,
)
handle_keybinding other_key s = (s, false)

-- The loop of `on_keyboard_key` over the symbols of a key.
unfoldable pub handle_syms : List KeySym → Server → Server × Bool
handle_syms [] s = (s, false)
handle_syms (sym ∷ syms) s =
    let (t, handled) = handle_keybinding sym s in
    let (u, more) = handle_syms syms t in (u, handled || more)
