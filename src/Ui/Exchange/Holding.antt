-- ===== src/Ui/Exchange/Holding.antt =====
-- What the compositor holds while the client of src/ui/app.cpp runs, event by event.
use finn_os.Base.{
  ℕ, ◌≡◌, refl, sym, ap, ◌∙◌, subst, Bool, true, false, List, [], ◌∷◌, ◌++◌, append-nil, arith,
  if◌then◌else◌, Bool-cases, inl, inr,
}
use finn_os.Ui.State.{ShmBuffer, Client}
use finn_os.Ui.Frames.{set_busy, holds, buffer_release}
use finn_os.Ui.Surface.{AppCall, app_calls}
use finn_os.Ui.Quiet.{core, attached, core-request_frame, core-app_calls}
use finn_os.Ui.Untouched.{absurd_true}
use finn_os.Ui.Beginning.{Begins, Begins-IsNew}
use finn_os.Ui.Events.{Event, step, idle_turn}
use finn_os.Ui.Exchange.Steps.{Moves, Moves-handed}
use finn_os.Ui.Exchange.Work.{step-Moved, releases}
use finn_os.Ui.Exchange.Safety.{
  has, without, taken_in, fair, IsSound, Moves-IsSound, all_below-without, ready-freed, ready,
  all_below,
}

-- The end of a list, behind as many elements as another has.
unfoldable behind : List ℕ → List ℕ → List ℕ
behind [] ys = ys
behind (x ∷ xs) [] = []
behind (x ∷ xs) (y ∷ ys) = behind xs ys

behind-append : (xs ys : List ℕ) → behind xs (xs ++ ys) ≡ ys
unfolding behind
behind-append [] ys = refl
behind-append (x ∷ xs) ys = behind-append xs ys

-- The buffers that are handed over between two states.
unfoldable pub given_by : Client → Client → List ℕ
unfolding behind attached
given_by c t = behind (attached c.sent) (attached t.sent)

-- A client that runs, and what the compositor holds: it releases only what it holds, and holds what
-- it is given.
pub data Session : Client → List ℕ → Type 0 where
  begun : (c : Client) → Begins c → Session c []
  released :
      {c : Client} {held : List ℕ} (id : ℕ)
      → Session c held
      → has id held ≡ true
      → Session (step (Event.release id) c) (without id held)
  handled :
      {c : Client} {held : List ℕ} (e : Event)
      → Session c held
      → releases e ≡ false
      → Session (step e c) (taken_in (given_by c (step e c)) held)
  idled :
      {c : Client} {held : List ℕ} (picked_dark ticks : Bool) (calls : List AppCall)
      → Session c held
      → Session (idle_turn picked_dark ticks calls c) held

given_by-Moves :
    (c t : Client) {given : List ℕ} → Moves (core c) given (core t) → given_by c t ≡ given
unfolding given_by
given_by-Moves c t {given} m =
    ap (behind (attached c.sent)) (Moves-handed m) ∙ behind-append (attached c.sent) given

-- One event that is not a release.
handled-IsSound :
    (e : Event) (c : Client) (held : List ℕ)
    → releases e ≡ false
    → IsSound (core c) held
    → (fair (given_by c (step e c)) held ≡ true)
      × IsSound (core (step e c)) (taken_in (given_by c (step e c)) held)
handled-IsSound e c held h sound =
    let moved = step-Moved e c h in
    let given = given_by-Moves c (step e c) moved.1 in
    subst (λ given. (fair given held ≡ true) × IsSound (core (step e c)) (taken_in given held))
      (sym given) (Moves-IsSound held moved.1 sound)

-- A release that reaches a buffer of the client frees it, and hands nothing over.
core-buffer_release :
    (id : ℕ) (c : Client)
    → core (buffer_release id c) ≡ (
        if holds id c.buffers
        then record (core c) { buffers = set_busy id false c.buffers }
        else core c)
unfolding buffer_release
core-buffer_release id c =
    let t = record c { buffers = set_busy id false c.buffers } in
    let asks = core-request_frame t in ground arith

set_busy-absent :
    (id : ℕ) (busy : Bool) (bs : List ShmBuffer) → holds id bs ≡ false → set_busy id busy bs ≡ bs
unfolding set_busy holds
set_busy-absent id busy [] h = refl
set_busy-absent id busy (b ∷ bs) h = let rest = set_busy-absent id busy bs in ground arith

pub core-release :
    (id : ℕ) (c : Client)
    → core (step (Event.release id) c) ≡ record (core c) { buffers = set_busy id false c.buffers }
unfolding step
core-release id c =
    let released = core-buffer_release id c in
    let same = set_busy-absent id false c.buffers in ground arith

released-IsSound :
    (id : ℕ) (c : Client) (held : List ℕ)
    → IsSound (core c) held
    → IsSound (core (step (Event.release id) c)) (without id held)
released-IsSound id c held h =
    subst (λ k. IsSound k (without id held)) (sym (core-release id c))
      (record {
        made = all_below-without c.next_buffer id held h.made;
        unheld = ready-freed c.next_buffer held id c.buffers h.unheld;
      })

pub core-idle_turn :
    (picked_dark ticks : Bool) (calls : List AppCall) (c : Client)
    → core (idle_turn picked_dark ticks calls c) ≡ core c
unfolding idle_turn
core-idle_turn picked_dark ticks calls c =
    let t = record c { dark = picked_dark } in
    let ticked = core-app_calls calls t in
    let asks = core-request_frame t in
    let asks_ticked = core-request_frame (app_calls calls t) in ground arith

Session-IsSound : {c : Client} {held : List ℕ} → Session c held → IsSound (core c) held
unfolding all_below ready
Session-IsSound (begun c b) = record {
  made = refl;
  unheld = ap (ready c.next_buffer []) (Begins-IsNew b).0;
}
Session-IsSound (released {c = c} {held = held} id s h) =
    released-IsSound id c held (Session-IsSound s)
Session-IsSound (handled {c = c} {held = held} e s h) =
    (handled-IsSound e c held h (Session-IsSound s)).1
Session-IsSound (idled {c = c} {held = held} picked_dark ticks calls s) =
    subst (λ k. IsSound k held) (sym (core-idle_turn picked_dark ticks calls c)) (Session-IsSound s)

given_by-release : (id : ℕ) (c : Client) → given_by c (step (Event.release id) c) ≡ []
unfolding given_by
given_by-release id c =
    ap (λ k. behind (attached c.sent) k.handed) (core-release id c)
    ∙ (ap (behind (attached c.sent)) (sym (append-nil (attached c.sent)))
        ∙ behind-append (attached c.sent) [])

-- In every session, whatever event comes next, the client hands over no buffer that the compositor
-- holds at that moment.
pub step-IsFair :
    {c : Client} {held : List ℕ} (e : Event)
    → Session c held
    → fair (given_by c (step e c)) held ≡ true
unfolding fair
step-IsFair {c} {held} e s = elim (Bool-cases (releases e)) [
  | inl frees_one ↦ frees e frees_one
  | inr h ↦ (handled-IsSound e c held h (Session-IsSound s)).0
]
  where
    frees : (e : Event) → releases e ≡ true → fair (given_by c (step e c)) held ≡ true
    frees (Event.release id) h = ap (λ given. fair given held) (given_by-release id c)
    frees e h = absurd_true (sym h)
