-- ===== src/Comp/Display.antt =====
-- `apply_output_config` and `update_display_settings` of src/comp/server.cpp.
use finn_os.Base.{
  Bool, true, false, not, ◌&&◌, List, [], ◌∷◌, map, if◌then◌else◌, ◌≡◌, refl, sym, ap, ap₂, ◌∙◌,
  arith, inl, inr, Bool-cases,
}
use finn_os.Base.Int.{ℤ, pos, ◌≤ℤ◌, ◌-ℤ◌, ltb_ℤ, max_ℤ}
use finn_os.Comp.State.{Box, Toplevel, Server}
use finn_os.Comp.Events.{configure_layer, is_positive}

-- The position kept on one axis of a usable box of the size.
unfoldable pub kept_on : ℤ → ℤ → ℤ
kept_on size place = if ltb_ℤ (size -ℤ pos 80) place then max_ℤ (pos 0) (size -ℤ pos 200) else place

unfoldable pub place_window : Box → Toplevel → Toplevel
unfolding kept_on
place_window usable t =
    if t.maximized
    then record t {
      node_x = usable.x;
      node_y = usable.y;
      asked_w = usable.width;
      asked_h = usable.height;
    }
    else record t {
      node_x = kept_on usable.width t.node_x;
      node_y = kept_on usable.height t.node_y;
    }

-- The loop over the layers, on the boxes that wlroots leaves usable behind them.
unfoldable pub configure_layers : List Box → Server → Server
unfolding configure_layer
configure_layers [] s = s
configure_layers (usable ∷ rest) s = configure_layers rest (configure_layer usable s)

-- `apply_output_config`: whether the output takes the mode and scale, then its box in the layout.
unfoldable pub apply_output_config : Bool → Box → List Box → Server → Server
unfolding configure_layers place_window
apply_output_config committed box layers s =
    if not committed
    then s
    else let t = configure_layers layers (record s { usable = box }) in
      record t { toplevels = map (place_window t.usable) t.toplevels }

-- What the settings ask for. Scales stand with the test whether two of them are less than 0.01
-- apart, which the source does on floats.
pub record DisplayConfig (Scale : Type 0) : Type 0 where
  pub width : ℤ
  pub height : ℤ
  pub scale : Scale

-- What an output does with a configuration.
pub record Applied : Type 0 where
  pub committed : Bool
  pub box : Box
  pub layers : List Box

unfoldable pub apply_all : List Applied → Server → Server
unfolding apply_output_config
apply_all [] s = s
apply_all (o ∷ rest) s = apply_all rest (apply_output_config o.committed o.box o.layers s)

abbrev equal_ℤ : ℤ → ℤ → Bool
equal_ℤ a b = not (ltb_ℤ a b) && not (ltb_ℤ b a)

module _ {Scale : Type 0} (near : Scale → Scale → Bool) where
  -- `update_display_settings`, on the configuration that was read and on the one in force.
  unfoldable pub update_display_settings :
      DisplayConfig Scale
      → List Applied
      → DisplayConfig Scale × Server
      → DisplayConfig Scale × Server
  unfolding apply_all
  update_display_settings read outputs (configured, s) =
      if equal_ℤ read.width configured.width
        && (equal_ℤ read.height configured.height && near read.scale configured.scale)
      then (configured, s)
      else (read, apply_all outputs s)

-- The box that the layers leave, of which the last one counts that is not empty.
usable_box : List Box → Box → Box
usable_box [] box = box
usable_box (usable ∷ rest) box = usable_box rest (if is_positive usable then usable else box)

configure_layers_lem :
    (layers : List Box) (box : Box) (s : Server)
    → configure_layers layers (record s { usable = box })
      ≡ record s { usable = usable_box layers box }
unfolding usable_box configure_layers configure_layer
configure_layers_lem [] box s = refl
configure_layers_lem (usable ∷ rest) box s = elim (Bool-cases (is_positive usable)) [
  | inl e ↦ rw e (configure_layers_lem rest usable s)
  | inr e ↦ rw e (configure_layers_lem rest box s)
]

apply_output_config_lem :
    (box : Box) (layers : List Box) (s : Server)
    → apply_output_config true box layers s ≡ record s {
      usable = usable_box layers box;
      toplevels = map (place_window (usable_box layers box)) s.toplevels;
    }
unfolding apply_output_config
apply_output_config_lem box layers s =
    ap {A = Server} {B = Server}
      (λ t. record t { toplevels = map (place_window t.usable) t.toplevels })
      (configure_layers_lem layers box s)

kept_on_again :
    (size place : ℤ) → pos 80 ≤ℤ size → kept_on size (kept_on size place) ≡ kept_on size place
unfolding kept_on ◌-ℤ◌
kept_on_again size place h = ground arith

place_window_again :
    (usable : Box) (t : Toplevel)
    → pos 80 ≤ℤ usable.width
    → pos 80 ≤ℤ usable.height
    → place_window usable (place_window usable t) ≡ place_window usable t
unfolding place_window
place_window_again usable t w h = elim (Bool-cases t.maximized) [
  | inl e ↦ rw e refl
  | inr e ↦ rw e (
      ap₂ {A = ℤ} {B = ℤ} {C = Toplevel}
        (λ x y. record t { maximized = false; node_x = x; node_y = y })
        (kept_on_again usable.width t.node_x w) (kept_on_again usable.height t.node_y h))
]

place_windows_again :
    (usable : Box) (ts : List Toplevel)
    → pos 80 ≤ℤ usable.width
    → pos 80 ≤ℤ usable.height
    → map (place_window usable) (map (place_window usable) ts) ≡ map (place_window usable) ts
place_windows_again usable [] w h = refl
place_windows_again usable (t ∷ ts) w h =
    ap₂ ◌∷◌ (place_window_again usable t w h) (place_windows_again usable ts w h)

-- A configuration that an output takes a second time changes nothing, when the box that is then
-- usable is at least 80 units wide and high.
apply_output_config_again :
    (box : Box) (layers : List Box) (s : Server)
    → pos 80 ≤ℤ (usable_box layers box).width
    → pos 80 ≤ℤ (usable_box layers box).height
    → apply_output_config true box layers (apply_output_config true box layers s)
      ≡ apply_output_config true box layers s
apply_output_config_again box layers s w h =
    let once = apply_output_config_lem box layers s in
    ap (apply_output_config true box layers) once
    ∙ (apply_output_config_lem box layers _
        ∙ (ap {A = List Toplevel} {B = Server}
              (λ ts. record s { usable = usable_box layers box; toplevels = ts })
              (place_windows_again (usable_box layers box) s.toplevels w h)
            ∙ sym once))
