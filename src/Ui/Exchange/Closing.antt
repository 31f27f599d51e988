-- ===== src/Ui/Exchange/Closing.antt =====
-- How often src/ui/app.cpp tells the app that its window closes.
use finn_os.Base.{
  ℕ, ◌≡◌, refl, sym, ◌∙◌, subst, ◌⊎◌, inl, inr, true, false, List, [], ◌∷◌, arith, Bool-cases,
}
use finn_os.Ui.State.{Client}
use finn_os.Ui.Quiet.{Core, core}
use finn_os.Ui.Untouched.{absurd_true}
use finn_os.Ui.Events.{Event, step, steps, Turn, turn, loop, loop_keeps}
use finn_os.Ui.Exchange.Steps.{Moves, still, draws, clears, adds, resizes, ends}
use finn_os.Ui.Exchange.Work.{step-Moved, releases}
use finn_os.Ui.Exchange.Holding.{core-release, core-idle_turn}

-- Either nobody has asked for the end, or the app was told once and the loop is to stop.
abbrev pub IsClosing : Core → Type 0
IsClosing k =
    ((k.close_requested ≡ false) × (k.closes ≡ 0))
    ⊎ ((k.close_requested ≡ true) × (k.closes ≡ 1) × (k.running ≡ false))

Moves-IsClosing : {k l : Core} {given : List ℕ} → Moves k given l → IsClosing k → IsClosing l
Moves-IsClosing still h = h
Moves-IsClosing (draws target input free p) h = Moves-IsClosing p h
Moves-IsClosing (clears p) h = Moves-IsClosing p h
Moves-IsClosing (adds bytes p) h = Moves-IsClosing p h
Moves-IsClosing (resizes size configured p) h = Moves-IsClosing p h
Moves-IsClosing (ends unasked p) h = Moves-IsClosing p (elim h [
  | inl (asked, none_told) ↦ inr (refl, omega (arith, none_told), refl)
  | inr (asked, told, stopped) ↦ absurd_true (sym asked ∙ unasked)
])

step-IsClosing : (e : Event) (c : Client) → IsClosing (core c) → IsClosing (core (step e c))
step-IsClosing e c h = elim (Bool-cases (releases e)) [
  | inl frees_one ↦ frees e frees_one
  | inr moves ↦ Moves-IsClosing (step-Moved e c moves).1 h
]
  where
    frees : (e : Event) → releases e ≡ true → IsClosing (core (step e c))
    frees (Event.release id) r = subst IsClosing (sym (core-release id c)) h
    frees e r = absurd_true (sym r)

steps-IsClosing :
    (events : List Event) (c : Client) → IsClosing (core c) → IsClosing (core (steps events c))
unfolding steps
steps-IsClosing [] c h = h
steps-IsClosing (e ∷ es) c h = steps-IsClosing es (step e c) (step-IsClosing e c h)

turn-IsClosing : (t : Turn) (c : Client) → IsClosing (core c) → IsClosing (core (turn t c).client)
unfolding turn
turn-IsClosing Turn.interrupted c h = h
turn-IsClosing Turn.poll_failed c h = h
turn-IsClosing Turn.hung_up c h = h
turn-IsClosing Turn.spurious c h = h
turn-IsClosing (Turn.idle picked_dark ticks calls) c h =
    subst IsClosing (sym (core-idle_turn picked_dark ticks calls c)) h
turn-IsClosing (Turn.dispatched true events) c h = steps-IsClosing events c h
turn-IsClosing (Turn.dispatched false events) c h = steps-IsClosing events c h

pub loop-IsClosing :
    (ts : List Turn) (c : Client) → IsClosing (core c) → IsClosing (core (loop ts c))
loop-IsClosing = loop_keeps (λ c. IsClosing (core c)) turn-IsClosing
