-- ===== src/Ui/Exchange/Drawing.antt =====
-- Drawing and closing in src/ui/app.cpp, as moves of the exchange.
use finn_os.Base.{
  ℕ, suc, ◌≡◌, refl, ap, ◌∙◌, subst, Bool, true, false, not, ◌&&◌, ◌||◌, some, List, [], ◌∷◌, ◌++◌,
  if◌then◌else◌, Bool-cases, Option-cases, inl, inr, if_both,
}
use finn_os.Ui.State.{ShmBuffer, Client, commit, attach, damage, set_buffer_scale}
use finn_os.Ui.Buffers.{buffer_width, buffer_height}
use finn_os.Ui.Surface.{need_frame, request_frame, request_close, app_calls}
use finn_os.Ui.Frames.{
  Drawing, first_free, begin_draw, end_draw, draw_into, render_frame, frame_done, draw_or_wait,
}
use finn_os.Ui.Quiet.{Core, core, attached, attached-append, core-request_frame, core-app_calls}
use finn_os.Ui.Exchange.Steps.{Moved, Moves, drawn, draws, ends, Moved-same, Moved-trans, still}

pub core-draw_into :
    (target : ShmBuffer) (d : Drawing) (c : Client)
    → core (draw_into target d c) ≡ drawn target c.input (core c)
unfolding draw_into end_draw begin_draw attached
core-draw_into target d c =
    let begun = begin_draw target d c in
    let t = app_calls d.calls begun in
    let same = core-app_calls d.calls begun in
    let adds_one = attached-append t.sent (
      set_buffer_scale t.scale
      ∷ attach target.id
      ∷ damage (buffer_width c) (buffer_height c)
      ∷ commit
      ∷ []) in
    ap {A = List ℕ} {B = Core} (λ handed. record (core t) { handed = handed; in_draw = false })
      adds_one
    ∙ ap {A = Core} {B = Core}
        (λ k. record k { handed = k.handed ++ (target.id ∷ []); in_draw = false }) same

draws-Moved :
    (target : ShmBuffer) (d : Drawing) (c : Client)
    → first_free c.buffers ≡ some target
    → Moved c (draw_into target d c)
draws-Moved target d c h = (
  target.id ∷ [],
  draws target c.input h
      (subst (λ k. Moves k [] (core (draw_into target d c))) (core-draw_into target d c) still),
)

pub render_frame-Moved : (d : Drawing) (c : Client) → Moved c (render_frame d c)
unfolding render_frame
render_frame-Moved d c = elim (Bool-cases (not (c.configured && (c.running && not c.failed)))) [
  | inl e ↦ rw e (Moved-same c c refl)
  | inr e ↦ rw e (
      if_both {A = Client} (λ t. Moved c t) c.in_draw (need_frame c)
        (draw_or_wait (first_free c.buffers) d c) (Moved-same c (need_frame c) refl)
        (elim (Option-cases (first_free c.buffers)) [
          | inl full ↦ rw full (Moved-same c (need_frame c) refl)
          | inr (target, free) ↦ rw free (draws-Moved target d c free)
        ]))
]

-- Where nobody has asked for the end before.
ended_unless-Moved :
    (asked : Bool) (c : Client)
    → c.close_requested ≡ asked
    → Moved c (
        if asked
        then c
        else record c { close_requested = true; running = false; closes = suc c.closes })
ended_unless-Moved true c same = Moved-same c c refl
ended_unless-Moved false c unasked = ([], ends unasked still)

pub request_close-Moved : (c : Client) → Moved c (request_close c)
unfolding request_close
request_close-Moved c = ended_unless-Moved c.close_requested c refl

pub request_frame-Moved : (c : Client) → Moved c (request_frame c)
request_frame-Moved c = Moved-same c (request_frame c) (core-request_frame c)

pub frame_done-Moved : (d : Drawing) (c : Client) → Moved c (frame_done d c)
unfolding frame_done
frame_done-Moved d old =
    let c = record old { frame_callback = false } in
    let t = render_frame d (record c { needs_frame = false }) in
    let renders = render_frame-Moved d (record c { needs_frame = false }) in
    elim (Bool-cases (not c.running)) [
      | inl e ↦ rw e (Moved-same old c refl)
      | inr e ↦ rw e (elim (Bool-cases (t.needs_frame || c.needs_frame)) [
        | inl needs ↦ rw needs (Moved-trans old t (request_frame t) renders (request_frame-Moved t))
        | inr enough ↦ rw enough renders
      ])
    ]
