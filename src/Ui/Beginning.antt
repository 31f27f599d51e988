-- ===== src/Ui/Beginning.antt =====
-- What holds of a client of src/ui/app.cpp when `init_xdg` or `init_layer` returns.
use finn_os.Base.{ℕ, ◌≡◌, refl, Bool, true, false, not, ◌&&◌, List, [], ◌∷◌, if◌then◌else◌, if_both}
use finn_os.Base.Int.{ℤ}
use finn_os.Text.Raw.{Bytes}
use finn_os.Ui.State.{Mode, KeyboardMode, Client, send, set_buffer_scale}
use finn_os.Ui.Outputs.{Global, registry_global, announce}
use finn_os.Ui.Setup.{
  Display, fail, connect_display, create_toplevel, create_layer, create_role, create_surface,
  titled, layered, start, xdg_client, layer_client, init_xdg, init_layer,
}

-- A client that was begun as a window or as a layer.
pub data Begins : Client → Type 0 where
  begins_xdg :
      (display : Display) (width height : ℤ) (title app_id : Bytes)
      → Begins (init_xdg display width height title app_id)
  begins_layer :
      (display : Display) (width height : ℤ) (name : Bytes) (anchor level : ℕ) (mode : KeyboardMode)
      → Begins (init_layer display width height name anchor level mode)

-- Nothing was made, asked for or drawn.
abbrev pub IsNew : Client → Type 0
IsNew c =
    (c.buffers ≡ [])
    × (c.open_fds ≡ 0)
    × (c.mapped ≡ 0)
    × (c.close_requested ≡ false)
    × (c.closes ≡ 0)
    × (c.in_draw ≡ false)
    × (c.needs_frame ≡ false)

announced-IsNew : (g : Global) (c : Client) → IsNew c → IsNew (registry_global g c)
unfolding registry_global
announced-IsNew Global.unknown c h = h
announced-IsNew g c h = h

announce-IsNew : (gs : List Global) (c : Client) → IsNew c → IsNew (announce gs c)
unfolding announce
announce-IsNew [] c h = h
announce-IsNew (g ∷ gs) c h = announce-IsNew gs (registry_global g c) (announced-IsNew g c h)

fail_if-IsNew : (b : Bool) (c t : Client) → IsNew c → IsNew t → IsNew (if b then fail c else t)
fail_if-IsNew b c t h k = if_both {A = Client} IsNew b (fail c) t h k

connect_display-IsNew :
    (display : Display) (c : Client) → IsNew c → IsNew (connect_display display c)
unfolding connect_display
connect_display-IsNew display old h =
    let c = announce display.globals old in
    let k = announce-IsNew display.globals old h in
    fail_if-IsNew (not display.reached) old
      (if not display.roundtrip
        then fail c
        else if not (c.has_compositor && c.has_shm)
        then fail c
        else c)
      h
      (fail_if-IsNew (not display.roundtrip) c
        (if not (c.has_compositor && c.has_shm) then fail c else c) k
        (fail_if-IsNew (not (c.has_compositor && c.has_shm)) c c k k))

create_role-IsNew : (mode : Mode) (c : Client) → IsNew c → IsNew (create_role mode c)
unfolding create_toplevel create_layer
create_role-IsNew Mode.xdg c h =
    if_both {A = Client} IsNew (not c.has_wm_base) (fail c) (titled c) h h
create_role-IsNew Mode.layer c h =
    if_both {A = Client} IsNew (not c.has_layer_shell) (fail c) (layered c) h h

create_surface-IsNew : (display : Display) (c : Client) → IsNew c → IsNew (create_surface display c)
unfolding create_surface
create_surface-IsNew display old h =
    let c = send (set_buffer_scale old.scale ∷ []) (record old { has_surface = true }) in
    fail_if-IsNew (not display.surface) old (create_role old.mode c) h
      (create_role-IsNew old.mode c h)

start-IsNew : (display : Display) (c : Client) → IsNew c → IsNew (start display c)
unfolding start
start-IsNew display old h =
    let c = connect_display display (record old { dark = display.picked_dark }) in
    let k = connect_display-IsNew display (record old { dark = display.picked_dark }) h in
    if_both {A = Client} IsNew c.failed c (create_surface display c) k
      (create_surface-IsNew display c k)

pub Begins-IsNew : {c : Client} → Begins c → IsNew c
unfolding init_xdg init_layer
Begins-IsNew (begins_xdg display width height title app_id) =
    start-IsNew display (xdg_client width height title app_id)
      (refl, refl, refl, refl, refl, refl, refl)
Begins-IsNew (begins_layer display width height name anchor level mode) =
    start-IsNew display (layer_client width height name anchor level mode)
      (refl, refl, refl, refl, refl, refl, refl)
