-- ===== src/Ui/Waking.antt =====
-- Whether a frame that the client of src/ui/app.cpp owes can be forgotten.
pub mod Pressing
pub mod Handlers
pub mod Shown
use finn_os.Base.{
  ℕ, ◌≡◌, refl, sym, ap, ◌∙◌, subst, Bool, true, false, not, ◌&&◌, ◌||◌, Option, none, some, List,
  [], ◌∷◌, ◌==◌, is_empty, arith, if◌then◌else◌, Bool-cases, Option-cases, inl, inr, if_both,
}
use finn_os.Base.Int.{ℤ, pos, leb_ℤ}
use finn_os.Ui.State.{ShmBuffer, Client, send, ack_configure}
use finn_os.Ui.Buffers.{Allocation, create_buffers}
use finn_os.Ui.Surface.{
  need_frame, request_frame, request_close, AppCall, app_calls, apply_input_region,
}
use finn_os.Ui.Frames.{
  Drawing, first_free, set_busy, draw_into, draw_or_wait, render_frame, frame_done,
}
use finn_os.Ui.Quiet.{Core, core}
use finn_os.Ui.Exchange.{core-draw_into}

unfoldable pub any_busy : List ShmBuffer → Bool
any_busy [] = false
any_busy (b ∷ bs) = b.busy || any_busy bs

-- A frame is asked for, of a window that can show one.
abbrev pub owes_frame : Client → Bool
owes_frame c = c.needs_frame && (c.running && (c.configured && (c.has_surface && not c.failed)))

-- Something is to come that draws: the callback, or the release of a buffer; or there is no buffer.
abbrev pub waits : Client → Bool
waits c = c.frame_callback || (any_busy c.buffers || is_empty c.buffers)

-- Between two events.
pub record IsAwake (c : Client) : Type 0 where
  pub idle : c.in_draw ≡ false
  pub awake : (not (owes_frame c) || waits c) ≡ true

any_busy-set_busy :
    (bs : List ShmBuffer) (target : ShmBuffer)
    → first_free bs ≡ some target
    → any_busy (set_busy target.id true bs) ≡ true
unfolding first_free any_busy set_busy
any_busy-set_busy [] target h = ground arith
any_busy-set_busy (b ∷ bs) target h = elim (Bool-cases b.busy) [
  | inl e ↦
      let rest =
        any_busy-set_busy bs target
          (subst (λ busy. (if busy then first_free bs else some b) ≡ some target) e h) in
      ground arith
  | inr e ↦ ground arith
]

first_free-none : (bs : List ShmBuffer) → first_free bs ≡ none → (any_busy bs || is_empty bs) ≡ true
unfolding first_free any_busy
first_free-none [] h = refl
first_free-none (b ∷ bs) h = ground arith

pub request_frame-IsAwake : (c : Client) → c.in_draw ≡ false → IsAwake (request_frame c)
unfolding request_frame
request_frame-IsAwake c h = record { idle = ground arith; awake = ground arith }

pub request_close-IsAwake : (c : Client) → IsAwake c → IsAwake (request_close c)
unfolding request_close
request_close-IsAwake c h =
    let idle = h.idle in let awake = h.awake in record { idle = ground arith; awake = ground arith }

draw_into-IsAwake :
    (target : ShmBuffer) (d : Drawing) (c : Client)
    → first_free c.buffers ≡ some target
    → IsAwake (draw_into target d c)
draw_into-IsAwake target d c free =
    let drawn = core-draw_into target d c in
    let idle = ap (λ k. k.in_draw) drawn in
    let busy = ap (λ k. any_busy k.buffers) drawn ∙ any_busy-set_busy c.buffers target free in
    record { idle = idle; awake = ground arith }

-- After an attempt to draw, a frame that is still owed waits for something.
pub render_frame-IsAwake :
    (d : Drawing) (c : Client) → c.in_draw ≡ false → IsAwake (render_frame d c)
unfolding render_frame
render_frame-IsAwake d c idle =
    elim (Bool-cases (not (c.configured && (c.running && not c.failed)))) [
      | inl e ↦ rw e (record { idle = idle; awake = ground arith })
      | inr e ↦ rw e (
          subst {A = Bool}
            (λ b. IsAwake (if b then need_frame c else draw_or_wait (first_free c.buffers) d c))
            (sym idle)
            (elim (Option-cases (first_free c.buffers)) [
              | inl full ↦ rw full (
                  let waiting = first_free-none c.buffers full in
                  record { idle = idle; awake = ground arith })
              | inr (target, free) ↦ rw free (draw_into-IsAwake target d c free)
            ]))
    ]

pub frame_done-IsAwake : (d : Drawing) (c : Client) → IsAwake c → IsAwake (frame_done d c)
unfolding frame_done
frame_done-IsAwake d old h =
    let c = record old { frame_callback = false } in
    let t = render_frame d (record c { needs_frame = false }) in
    let drawn = render_frame-IsAwake d (record c { needs_frame = false }) h.idle in
    elim (Bool-cases (not c.running)) [
      | inl e ↦ rw e (record { idle = h.idle; awake = ground arith })
      | inr e ↦ rw e (
          if_both {A = Client} IsAwake (t.needs_frame || c.needs_frame) (request_frame t) t
            (request_frame-IsAwake t drawn.idle) drawn)
    ]
