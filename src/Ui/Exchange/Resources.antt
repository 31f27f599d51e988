-- ===== src/Ui/Exchange/Resources.antt =====
-- The descriptors, the maps and the sizes of the buffers of the client of src/ui/app.cpp.
use finn_os.Base.{
  ℕ, suc, ◌≡◌, refl, sym, ap, ◌∙◌, subst, Bool, true, false, List, [], ◌∷◌, length, length-append,
  arith, if◌then◌else◌, Bool-cases, inl, inr, if_both,
}
use finn_os.Ui.State.{ShmBuffer, Client}
use finn_os.Ui.Frames.{set_busy}
use finn_os.Ui.Buffers.{destroy_buffers}
use finn_os.Ui.Quiet.{Core, core}
use finn_os.Ui.Untouched.{absurd_true}
use finn_os.Ui.Events.{Event, step, steps, Turn, turn, loop, loop_keeps, destroy, run}
use finn_os.Ui.Exchange.Steps.{Moves, still, draws, clears, adds, resizes, ends, fresh}
use finn_os.Ui.Exchange.Work.{step-Moved, releases}
use finn_os.Ui.Exchange.Holding.{core-release, core-idle_turn}

-- No descriptor is left open, and there is one map for each buffer.
pub record IsTidy (k : Core) : Type 0 where
  pub closed : k.open_fds ≡ 0
  pub one_map : k.mapped ≡ length k.buffers

-- Nothing of the system's is held any more.
pub record IsReleased (c : Client) : Type 0 where
  pub closed : c.open_fds ≡ 0
  pub unmapped : c.mapped ≡ 0
  pub no_buffers : c.buffers ≡ []
  pub no_outputs : c.outputs ≡ []

length-set_busy :
    (id : ℕ) (busy : Bool) (bs : List ShmBuffer) → length (set_busy id busy bs) ≡ length bs
unfolding set_busy
length-set_busy id busy [] = refl
length-set_busy id busy (b ∷ bs) = ap suc (length-set_busy id busy bs)

-- A change of the busy marks.
marked-IsTidy :
    (id : ℕ) (busy : Bool) (k : Core)
    → IsTidy k
    → IsTidy (record k { buffers = set_busy id busy k.buffers })
marked-IsTidy id busy k h = record {
  closed = h.closed;
  one_map = h.one_map ∙ sym (length-set_busy id busy k.buffers);
}

Moves-IsTidy : {k l : Core} {given : List ℕ} → Moves k given l → IsTidy k → IsTidy l
Moves-IsTidy still h = h
Moves-IsTidy {k} (draws target input free p) h =
    let t = marked-IsTidy target.id true k h in
    Moves-IsTidy p (record { closed = t.closed; one_map = t.one_map })
Moves-IsTidy {k} (clears p) h =
    let one_map = h.one_map in Moves-IsTidy p (record { closed = h.closed; one_map = omega arith })
Moves-IsTidy {k} (adds bytes p) h = Moves-IsTidy p (record {
  closed = h.closed;
  one_map = ap suc h.one_map ∙ (omega (arith, length-append k.buffers (fresh k bytes ∷ [])));
})
Moves-IsTidy (resizes size configured p) h =
    Moves-IsTidy p (record { closed = h.closed; one_map = h.one_map })
Moves-IsTidy (ends unasked p) h = Moves-IsTidy p (record { closed = h.closed; one_map = h.one_map })

step-IsTidy : (e : Event) (c : Client) → IsTidy (core c) → IsTidy (core (step e c))
step-IsTidy e c h = elim (Bool-cases (releases e)) [
  | inl frees_one ↦ frees e frees_one
  | inr moves ↦ Moves-IsTidy (step-Moved e c moves).1 h
]
  where
    frees : (e : Event) → releases e ≡ true → IsTidy (core (step e c))
    frees (Event.release id) r =
        subst IsTidy (sym (core-release id c)) (marked-IsTidy id false (core c) h)
    frees e r = absurd_true (sym r)

steps-IsTidy : (events : List Event) (c : Client) → IsTidy (core c) → IsTidy (core (steps events c))
unfolding steps
steps-IsTidy [] c h = h
steps-IsTidy (e ∷ es) c h = steps-IsTidy es (step e c) (step-IsTidy e c h)

turn-IsTidy : (t : Turn) (c : Client) → IsTidy (core c) → IsTidy (core (turn t c).client)
unfolding turn
turn-IsTidy Turn.interrupted c h = h
turn-IsTidy Turn.poll_failed c h = record { closed = h.closed; one_map = h.one_map }
turn-IsTidy Turn.hung_up c h = h
turn-IsTidy Turn.spurious c h = h
turn-IsTidy (Turn.idle picked_dark ticks calls) c h =
    subst IsTidy (sym (core-idle_turn picked_dark ticks calls c)) h
turn-IsTidy (Turn.dispatched true events) c h = steps-IsTidy events c h
turn-IsTidy (Turn.dispatched false events) c h =
    let t = steps-IsTidy events c h in record { closed = t.closed; one_map = t.one_map }

pub loop-IsTidy : (ts : List Turn) (c : Client) → IsTidy (core c) → IsTidy (core (loop ts c))
loop-IsTidy = loop_keeps (λ c. IsTidy (core c)) turn-IsTidy

destroyed : (c : Client) → IsTidy (core c) → IsReleased (destroy c)
unfolding destroy destroy_buffers
destroyed c h =
    let one_map = h.one_map in
    record { closed = h.closed; unmapped = omega arith; no_buffers = refl; no_outputs = refl }

pub run-IsReleased :
    (ts : List Turn) (c : Client) → IsTidy (core c) → c.failed ≡ false → IsReleased (run ts c).0
unfolding run
run-IsReleased ts c h working =
    let ended = destroy (loop ts c) in
    let freed = destroyed (loop ts c) (loop-IsTidy ts c h) in
    let status : Client × ℕ = if ended.failed then (ended, 1) else (ended, 0) in
    subst {A = Bool} (λ b. IsReleased (if b then (c, 1) else status).0) (sym working)
      (if_both {A = Client × ℕ} (λ r. IsReleased r.0) ended.failed (ended, 1) (ended, 0) freed
        freed)
