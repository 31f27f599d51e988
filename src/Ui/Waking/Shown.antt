-- ===== src/Ui/Waking/Shown.antt =====
-- What a frame callback of src/ui/app.cpp shows, and what becomes of the input.
use finn_os.Base.{
  ◌≡◌, refl, sym, ap, ◌∙◌, subst, Bool, true, false, not, ◌&&◌, ◌||◌, some, List, [], ◌∷◌, ◌++◌,
  arith, if_both, if◌then◌else◌, ◌⊎◌, inl, inr, none, Option, All, Bool-cases,
}
use finn_os.Base.Int.{pos}
use finn_os.Text.Raw.{Bytes}
use finn_os.Ui.State.{Rect, ShmBuffer, KeyboardMode, Client}
use finn_os.Ui.Surface.{
  need_frame, request_frame, set_framed, name_toplevel, retitle, apply_input_region, restrict_input,
  set_keyboard_mode, AppCall, ask_frame, use_frame, use_title, use_region, use_keyboard, use_tick,
  app_call, app_calls,
}
use finn_os.Ui.Frames.{
  Drawing, first_free, reset_input, begin_draw, end_draw, draw_into, draw_or_wait, render_frame,
  frame_done,
}
use finn_os.Ui.Quiet.{attached, core-request_frame}
use finn_os.Ui.Exchange.{core-draw_into}

-- The app's calls leave the input as it is.

input-request_frame : (c : Client) → (request_frame c).input ≡ c.input
unfolding request_frame
input-request_frame c = ground arith

input-name_toplevel : (title : Bytes) (c : Client) → (name_toplevel title c).input ≡ c.input
unfolding name_toplevel
input-name_toplevel title c = ground arith

input-restrict_input : (rects : List Rect) (c : Client) → (restrict_input rects c).input ≡ c.input
unfolding restrict_input apply_input_region
input-restrict_input rects c = ground arith

input-set_keyboard_mode :
    (mode : KeyboardMode) (c : Client) → (set_keyboard_mode mode c).input ≡ c.input
unfolding set_keyboard_mode
input-set_keyboard_mode mode c = ground arith

input-app_call : (call : AppCall) (c : Client) → (app_call call c).input ≡ c.input
unfolding app_call set_framed retitle
input-app_call ask_frame c = input-request_frame c
input-app_call (use_frame framed) c = input-request_frame (record c { framed = framed })
input-app_call (use_title title) c =
    input-request_frame (name_toplevel title (record c { title = title }))
    ∙ input-name_toplevel title (record c { title = title })
input-app_call (use_region rects) c = input-restrict_input rects c
input-app_call (use_keyboard mode) c = input-set_keyboard_mode mode c
input-app_call (use_tick ms) c = refl

input-app_calls : (calls : List AppCall) (c : Client) → (app_calls calls c).input ≡ c.input
unfolding app_calls
input-app_calls [] c = refl
input-app_calls (call ∷ calls) c = input-app_calls calls (app_call call c) ∙ input-app_call call c

input-draw_into :
    (target : ShmBuffer) (d : Drawing) (c : Client)
    → (draw_into target d c).input ≡ reset_input c.input
unfolding draw_into begin_draw end_draw
input-draw_into target d c = ap reset_input (input-app_calls d.calls (begin_draw target d c))

-- One frame is shown in the first free buffer, with the input of the state before. Of the input only
-- the position, the focus and whether the button is down remain.
pub record IsShown (c t : Client) : Type 0 where
  pub target : ShmBuffer
  pub is_first : first_free c.buffers ≡ some target
  pub free : target.busy ≡ false
  pub seen : t.seen ≡ c.seen ++ (c.input ∷ [])
  pub handed : attached t.sent ≡ attached c.sent ++ (target.id ∷ [])
  pub left : t.input ≡ record {
    x = c.input.x;
    y = c.input.y;
    pointer_down = c.input.pointer_down;
    pointer_pressed = false;
    pointer_released = false;
    button = 0;
    scroll_x = pos 0;
    scroll_y = pos 0;
    focused = c.input.focused;
    keys = [];
    text = [];
  }

-- Nothing is shown, nothing is handed over, and the input waits.
pub record IsKept (c t : Client) : Type 0 where
  pub seen : t.seen ≡ c.seen
  pub handed : attached t.sent ≡ attached c.sent
  pub left : t.input ≡ c.input

-- A configured and running window that has not failed and is not being drawn.
pub record IsShowing (c : Client) : Type 0 where
  pub running : c.running ≡ true
  pub configured : c.configured ≡ true
  pub working : c.failed ≡ false
  pub idle : c.in_draw ≡ false

-- Why a window is not drawn.
abbrev pub IsHeld : Client → Type 0
IsHeld c =
    (c.running ≡ false)
    ⊎ (c.configured ≡ false)
    ⊎ (c.failed ≡ true)
    ⊎ (c.in_draw ≡ true)
    ⊎ All (λ b. b.busy ≡ true) c.buffers

abbrev Answered : Client → Client → Type 0
Answered c t = (IsShowing c × IsShown c t) ⊎ (IsHeld c × IsKept c t)

first_free_lem :
    (bs : List ShmBuffer)
    → ((first_free bs ≡ none) × All (λ b. b.busy ≡ true) bs)
      ⊎ ((target : ShmBuffer) × (first_free bs ≡ some target) × (target.busy ≡ false))
unfolding first_free
first_free_lem [] = inl (refl, tt)
first_free_lem (b ∷ bs) = elim (Bool-cases b.busy) [
  | inr e ↦ inr (b, rw e refl, e)
  | inl e ↦ elim (first_free_lem bs) [
    | inl (h, k) ↦ inl (rw e h, (e, k))
    | inr (target, h, k) ↦ inr (target, rw e h, k)
  ]
]

draw_into-IsShown :
    (target : ShmBuffer) (d : Drawing) (c : Client)
    → first_free c.buffers ≡ some target
    → target.busy ≡ false
    → IsShown c (draw_into target d c)
unfolding reset_input
draw_into-IsShown target d c chosen free =
    let drawn = core-draw_into target d c in
    record {
      target = target;
      is_first = chosen;
      free = free;
      seen = ap (λ k. k.seen) drawn;
      handed = ap (λ k. k.handed) drawn;
      left = input-draw_into target d c;
    }

need_frame-IsKept : (c : Client) → IsKept c (need_frame c)
need_frame-IsKept c = record { seen = refl; handed = refl; left = refl }

-- What a further request for a frame changes is not seen.
request_frame-Answered : (c t : Client) → Answered c t → Answered c (request_frame t)
request_frame-Answered c t h =
    let same = core-request_frame t in
    elim h [
      | inl (ready, shown) ↦ inl (
        ready,
        record {
          target = shown.target;
          is_first = shown.is_first;
          free = shown.free;
          seen = ap (λ k. k.seen) same ∙ shown.seen;
          handed = ap (λ k. k.handed) same ∙ shown.handed;
          left = input-request_frame t ∙ shown.left;
        },
      )
      | inr (held, kept) ↦ inr (
        held,
        record {
          seen = ap (λ k. k.seen) same ∙ kept.seen;
          handed = ap (λ k. k.handed) same ∙ kept.handed;
          left = input-request_frame t ∙ kept.left;
        },
      )
    ]

draw_or_wait-Answered :
    (d : Drawing) (c : Client) → IsShowing c → Answered c (draw_or_wait (first_free c.buffers) d c)
draw_or_wait-Answered d c ready = elim (first_free_lem c.buffers) [
  | inl (h, busy) ↦ rw h (inr (inr (inr (inr (inr busy))), need_frame-IsKept c))
  | inr (target, h, free) ↦
      subst {A = Option ShmBuffer} (λ o. Answered c (draw_or_wait o d c)) (sym h)
        (inl (ready, draw_into-IsShown target d c h free))
]

is_live :
    (a b c : Bool)
    → ((a ≡ true) × (b ≡ true) × (c ≡ false) × (not (a && (b && not c)) ≡ false))
      ⊎ ((not (a && (b && not c)) ≡ true) × ((b ≡ false) ⊎ (a ≡ false) ⊎ (c ≡ true)))
is_live true true false = inl (refl, refl, refl, refl)
is_live true true true = inr (refl, inr (inr refl))
is_live true false c = inr (refl, inl refl)
is_live false b c = inr (refl, inr (inl refl))

off-IsHeld :
    (c : Client) → (c.running ≡ false) ⊎ (c.configured ≡ false) ⊎ (c.failed ≡ true) → IsHeld c
off-IsHeld c (inl h) = inl h
off-IsHeld c (inr (inl h)) = inr (inl h)
off-IsHeld c (inr (inr h)) = inr (inr (inl h))

render_frame-Answered : (d : Drawing) (c : Client) → Answered c (render_frame d c)
unfolding render_frame
render_frame-Answered d c = elim (is_live c.configured c.running c.failed) [
  | inr (off, why) ↦
      rw off (inr (off-IsHeld c why, record { seen = refl; handed = refl; left = refl }))
  | inl (configured, running, working, live) ↦ elim (Bool-cases c.in_draw) [
    | inl e ↦
        subst {A = Bool}
          (λ b. Answered c (
            if b
            then c
            else if c.in_draw
            then need_frame c
            else draw_or_wait (first_free c.buffers) d c))
          (sym live)
          (subst {A = Bool}
            (λ b. Answered c (if b then need_frame c else draw_or_wait (first_free c.buffers) d c))
            (sym e) (inr (inr (inr (inr (inl e))), need_frame-IsKept c)))
    | inr e ↦
        subst {A = Bool}
          (λ b. Answered c (
            if b
            then c
            else if c.in_draw
            then need_frame c
            else draw_or_wait (first_free c.buffers) d c))
          (sym live)
          (subst {A = Bool}
            (λ b. Answered c (if b then need_frame c else draw_or_wait (first_free c.buffers) d c))
            (sym e)
            (draw_or_wait-Answered d c
              (record { running = running; configured = configured; working = working; idle = e })))
  ]
]

-- The same seen from the state before the flags are put down.
Answered-from :
    (old c t : Client)
    → c ≡ record old { frame_callback = false; needs_frame = false }
    → Answered c t
    → Answered old t
Answered-from old c t e h = subst {A = Client} (λ u. Answered u t → Answered old t) (sym e) from h
  where
    from : Answered (record old { frame_callback = false; needs_frame = false }) t → Answered old t
    from (inl (ready, shown)) = inl (
      record {
        running = ready.running;
        configured = ready.configured;
        working = ready.working;
        idle = ready.idle;
      },
      record {
        target = shown.target;
        is_first = shown.is_first;
        free = shown.free;
        seen = shown.seen;
        handed = shown.handed;
        left = shown.left;
      },
    )
    from (inr (held, kept)) =
        inr (held, record { seen = kept.seen; handed = kept.handed; left = kept.left })

-- When the frame callback comes, then either the window is configured and running, has not failed
-- and is not being drawn, and a buffer is free: a frame is drawn that sees the input gathered so far,
-- the first free buffer is handed over, and of the input only the position, the focus and whether the
-- button is down remain. Or one of these fails: nothing is drawn or handed over, and the whole input
-- is kept for the next frame.
pub frame_done_lem :
    (d : Drawing) (c : Client)
    → (IsShowing c × IsShown c (frame_done d c)) ⊎ (IsHeld c × IsKept c (frame_done d c))
unfolding frame_done
frame_done_lem d old =
    let c = record old { frame_callback = false } in
    let begun = record c { needs_frame = false } in
    let t = render_frame d begun in
    let answered = Answered-from old begun t refl (render_frame-Answered d begun) in
    elim (Bool-cases old.running) [
      | inr e ↦
          subst {A = Bool}
            (λ b.
              Answered old (
                if not b then c else if t.needs_frame || c.needs_frame then request_frame t else t))
            (sym e) (inr (inl e, record { seen = refl; handed = refl; left = refl }))
      | inl e ↦
          subst {A = Bool}
            (λ b.
              Answered old (
                if not b then c else if t.needs_frame || c.needs_frame then request_frame t else t))
            (sym e)
            (if_both {A = Client} (λ u. Answered old u) (t.needs_frame || c.needs_frame)
              (request_frame t) t (request_frame-Answered old t answered) answered)
    ]
