-- ===== src/Ui/Quiet.antt =====
-- What the calls of src/ui/app.cpp that draw nothing leave as it is.
use finn_os.Base.{
  ℕ, ◌≡◌, refl, sym, ap, append_assoc, append-nil, ◌∙◌, Bool, true, List, [], ◌∷◌, ◌++◌, map, arith,
}
use finn_os.Base.Int.{ℤ}
use finn_os.Text.Raw.{Bytes}
use finn_os.Ui.Names.{lowercase_hyphenated}
use finn_os.Ui.State.{
  Rect, Input, KeyboardMode, Request, attach, frame, commit, set_title, set_app_id,
  set_input_region, set_keyboard_interactivity, Client, send, ShmBuffer,
}
use finn_os.Ui.Surface.{
  cut_rect, request_frame, set_framed, name_toplevel, retitle, restrict_input, apply_input_region,
  set_keyboard_mode, AppCall, ask_frame, use_frame, use_title, use_region, use_keyboard, use_tick,
  app_call, app_calls,
}

-- The buffers that are handed to the compositor.
abbrev attached_by : Request → List ℕ
attached_by (attach id) = id ∷ []
attached_by _ = []

unfoldable pub attached : List Request → List ℕ
attached [] = []
attached (request ∷ rest) = attached_by request ++ attached rest

pub attached-append : (xs ys : List Request) → attached (xs ++ ys) ≡ attached xs ++ attached ys
unfolding attached
attached-append [] ys = refl
attached-append (x ∷ xs) ys =
    ap (◌++◌ (attached_by x)) (attached-append xs ys)
    ∙ sym (append_assoc (attached_by x) (attached xs) (attached ys))

-- Requests that hand nothing over.
attached_none : (xs ys : List Request) → attached ys ≡ [] → attached (xs ++ ys) ≡ attached xs
attached_none xs ys h =
    attached-append xs ys ∙ (ap (◌++◌ (attached xs)) h ∙ append-nil (attached xs))

-- The part of the state that only drawing, buffers, configurations and closing change.
pub record Core : Type 0 where
  pub buffers : List ShmBuffer
  pub next_buffer : ℕ
  pub open_fds : ℕ
  pub mapped : ℕ
  pub handed : List ℕ
  pub in_draw : Bool
  pub failed : Bool
  pub configured : Bool
  pub seen : List Input
  pub has_surface : Bool
  pub close_requested : Bool
  pub running : Bool
  pub closes : ℕ
  pub size : ℤ × ℤ × ℕ

abbrev pub core : Client → Core
core c = record {
  buffers = c.buffers;
  next_buffer = c.next_buffer;
  open_fds = c.open_fds;
  mapped = c.mapped;
  handed = attached c.sent;
  in_draw = c.in_draw;
  failed = c.failed;
  configured = c.configured;
  seen = c.seen;
  has_surface = c.has_surface;
  close_requested = c.close_requested;
  running = c.running;
  closes = c.closes;
  size = (c.width, c.height, c.scale);
}

-- Requests that hand nothing over change nothing of it.
pub core-send :
    (requests : List Request) (c : Client)
    → attached requests ≡ []
    → core (send requests c) ≡ core c
core-send requests c h =
    ap (λ handed. record (core c) { handed = handed }) (attached_none c.sent requests h)

pub core-request_frame : (c : Client) → core (request_frame c) ≡ core c
unfolding request_frame attached
core-request_frame c =
    let asks = core-send (frame ∷ commit ∷ []) (record c { frame_callback = true }) refl in
    ground arith

core-name_toplevel : (title : Bytes) (c : Client) → core (name_toplevel title c) ≡ core c
unfolding name_toplevel attached
core-name_toplevel title c =
    let app_id = lowercase_hyphenated title in
    let named = send (set_title title ∷ []) c in
    let sends = core-send (set_title title ∷ []) c refl in
    let sends_app = core-send (set_app_id app_id ∷ []) (record named { app_id = app_id }) refl in
    ground arith

core-retitle : (title : Bytes) (c : Client) → core (retitle title c) ≡ core c
unfolding retitle
core-retitle title c =
    core-request_frame (name_toplevel title (record c { title = title }))
    ∙ core-name_toplevel title (record c { title = title })

pub core-apply_input_region : (c : Client) → core (apply_input_region c) ≡ core c
unfolding apply_input_region attached
core-apply_input_region c =
    let sends = core-send (set_input_region (map cut_rect c.input_region) ∷ commit ∷ []) c refl in
    ground arith

core-restrict_input : (rects : List Rect) (c : Client) → core (restrict_input rects c) ≡ core c
unfolding restrict_input
core-restrict_input rects c =
    let applies =
      core-apply_input_region (record c { input_region = rects; input_region_set = true }) in
    ground arith

core-set_keyboard_mode :
    (mode : KeyboardMode) (c : Client) → core (set_keyboard_mode mode c) ≡ core c
unfolding set_keyboard_mode attached
core-set_keyboard_mode mode c =
    let sends =
      core-send (set_keyboard_interactivity mode ∷ commit ∷ []) (record c { keyboard_mode = mode })
        refl in
    ground arith

core-app_call : (call : AppCall) (c : Client) → core (app_call call c) ≡ core c
unfolding app_call set_framed
core-app_call ask_frame c = core-request_frame c
core-app_call (use_frame framed) c = core-request_frame (record c { framed = framed })
core-app_call (use_title title) c = core-retitle title c
core-app_call (use_region rects) c = core-restrict_input rects c
core-app_call (use_keyboard mode) c = core-set_keyboard_mode mode c
core-app_call (use_tick ms) c = refl

pub core-app_calls : (calls : List AppCall) (c : Client) → core (app_calls calls c) ≡ core c
unfolding app_calls
core-app_calls [] c = refl
core-app_calls (call ∷ calls) c = core-app_calls calls (app_call call c) ∙ core-app_call call c
