-- ===== src/Ui/Outputs.antt =====
-- The outputs that the client of src/ui/app.cpp knows, and the scale that it draws at.
use finn_os.Base.{ℕ, Bool, true, Option, none, some, List, [], ◌∷◌, ◌++◌, ◌==◌, ltb, if◌then◌else◌}
use finn_os.Base.Int.{ℤ, pos, pos_part}
use finn_os.Ui.State.{OutputEntry, Client, send, set_buffer_scale}
use finn_os.Ui.Buffers.{Allocation, destroy_buffers, create_buffers}
use finn_os.Ui.Surface.{request_frame}

-- The loop of `update_scale`, which begins with 1: only a factor above it counts.
unfoldable pub max_scale : ℕ → List OutputEntry → ℕ
max_scale best [] = best
max_scale best (o ∷ os) =
    max_scale (if ltb best (pos_part o.scale) then pos_part o.scale else best) os

-- Behind the test for a change.
unfoldable pub rescaled : Allocation × Allocation → ℕ → Client → Client
unfolding destroy_buffers create_buffers request_frame
rescaled rounds scale old =
    let scaled = record old { scale = scale } in
    let c = if old.has_surface then send (set_buffer_scale scale ∷ []) scaled else scaled in
    if c.configured then request_frame (create_buffers rounds (destroy_buffers c)).0 else c

unfoldable pub update_scale : Allocation × Allocation → Client → Client
unfolding max_scale rescaled
update_scale rounds old =
    let scale = max_scale 1 old.outputs in
    if scale == old.scale then old else rescaled rounds scale old

-- A change of the entry that an event is for.
unfoldable pub change_output : ℕ → (OutputEntry → OutputEntry) → List OutputEntry → List OutputEntry
change_output name f [] = []
change_output name f (o ∷ os) = (if o.name == name then f o else o) ∷ change_output name f os

unfoldable pub output_mode : ℕ → Bool → ℤ → ℤ → Client → Client
unfolding change_output
output_mode name current width height c =
    if current
    then record c {
      outputs =
          change_output name (λ o. record o { mode_width = width; mode_height = height }) c.outputs;
    }
    else c

unfoldable pub output_scale : ℕ → ℤ → Allocation × Allocation → Client → Client
unfolding change_output update_scale
output_scale name factor rounds c =
    update_scale rounds
      (record c { outputs = change_output name (λ o. record o { scale = factor }) c.outputs })

-- The first entry with the name, and what is left without it.
unfoldable pub remove_output : ℕ → List OutputEntry → Option (List OutputEntry)
remove_output name [] = none
remove_output name (o ∷ os) =
    let rest = remove_output name os in
    if o.name == name then some os else elim rest [ none ↦ none | some left ↦ some (o ∷ left) ]

abbrev without_output : Option (List OutputEntry) → Allocation × Allocation → Client → Client
without_output none rounds c = c
without_output (some left) rounds c = update_scale rounds (record c { outputs = left })

unfoldable pub registry_remove : ℕ → Allocation × Allocation → Client → Client
unfolding remove_output update_scale
registry_remove name rounds c = without_output (remove_output name c.outputs) rounds c

-- What the registry announces; `unknown` is any other interface.
pub data Global : Type 0 where
  compositor shm wm_base seat layer_shell unknown : Global
  output : ℕ → Global

unfoldable pub registry_global : Global → Client → Client
registry_global compositor c = record c { has_compositor = true }
registry_global shm c = record c { has_shm = true }
registry_global wm_base c = record c { has_wm_base = true }
registry_global seat c = record c { has_seat = true }
registry_global layer_shell c = record c { has_layer_shell = true }
registry_global unknown c = c
registry_global (output name) c = record c {
  outputs =
      c.outputs
      ++ (record { name = name; scale = pos 1; mode_width = pos 0; mode_height = pos 0 } ∷ []);
}

unfoldable pub announce : List Global → Client → Client
unfolding registry_global
announce [] c = c
announce (g ∷ gs) c = announce gs (registry_global g c)
