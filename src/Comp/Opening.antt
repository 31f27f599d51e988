-- ===== src/Comp/Opening.antt =====
-- The opening animation of src/comp/server.cpp.
use finn_os.Base.{
  ℕ, ◌+◌, ◌-◌, ◌≤◌, ◌≡◌, refl, true, false, List, [], ◌∷◌, arith, leb, All, Bool-cases, inl, inr,
  ◌<◌, ◌⊎◌, subst, ap, ◌∙◌,
}
use native.Mathlib.Nat.{mul-le-mul}
use finn_os.Base.Int.{pos, ◌≤ℤ◌, ◌+ℤ◌, ◌-ℤ◌, int_laws}
use finn_os.Comp.State.{Toplevel, Server}
use finn_os.Comp.Animation.{
  open_ms, open_rise, cube, progress, eased, risen, animate, animate_all, is_active,
  animate_windows,
}

cube_mono : (m n : ℕ) → m ≤ n → cube m ≤ cube n
cube_mono m n h = mul-le-mul (mul-le-mul h h) h

risen-le : (elapsed : ℕ) → risen elapsed ≤ open_rise
unfolding risen eased
risen-le elapsed = omega arith

progress_mono : (m n : ℕ) → m ≤ n → progress m ≤ progress n
progress_mono m n h = ground arith

risen_mono : (m n : ℕ) → m ≤ n → risen m ≤ risen n
unfolding risen eased
risen_mono m n h = omega (
  arith,
  cube_mono (open_ms - progress n) (open_ms - progress m) (omega (arith, progress_mono m n h)),
)

-- A window that is opening: it began below its place, and has not passed it.
pub record IsOpening (t : Toplevel) : Type 0 where
  pub opening : t.opening ≡ true
  pub from_below : t.open_from_y ≡ t.open_to_y +ℤ pos open_rise

-- What a turn of the timer makes of a window that is opening.
animate_early :
    (now : ℕ) (t : Toplevel)
    → t.opening ≡ true
    → leb open_ms (now - t.open_start_ms) ≡ false
    → animate now t ≡ record t { node_y = t.open_from_y -ℤ pos (risen (now - t.open_start_ms)) }
unfolding animate
animate_early now t h e = ground arith

animate_late :
    (now : ℕ) (t : Toplevel)
    → t.opening ≡ true
    → leb open_ms (now - t.open_start_ms) ≡ true
    → animate now t ≡ record t { opening = false; node_y = t.open_to_y }
unfolding animate
animate_late now t h e = ground arith

-- Between the start and the place.
animate_within :
    (now : ℕ) (t : Toplevel)
    → IsOpening t
    → (t.open_to_y ≤ℤ (animate now t).node_y) × ((animate now t).node_y ≤ℤ t.open_from_y)
animate_within now t h = elim (Bool-cases (leb open_ms (now - t.open_start_ms))) [
  | inl e ↦ rw (animate_late now t h.opening e) (rw h.from_below (omega arith, omega int_laws))
  | inr e ↦
      let r = risen-le (now - t.open_start_ms) in
      rw (animate_early now t h.opening e) (rw h.from_below (omega int_laws, omega int_laws))
]

animate_falls :
    (now later : ℕ) (t : Toplevel)
    → IsOpening t
    → now ≤ later
    → (animate later t).node_y ≤ℤ (animate now t).node_y
animate_falls now later t h l = elim (Bool-cases (leb open_ms (later - t.open_start_ms))) [
  | inl e ↦ rw (animate_late later t h.opening e) (animate_within now t h).0
  | inr e ↦
      let early : leb open_ms (now - t.open_start_ms) ≡ false = ground arith in
      let m = risen_mono (now - t.open_start_ms) (later - t.open_start_ms) (omega arith) in
      rw (animate_early later t h.opening e)
        (rw (animate_early now t h.opening early) (omega int_laws))
]

-- As long as a window is opening, a turn of the timer puts it between its place and 14 units
-- below, never lower than an earlier turn would; and from 220 milliseconds on a turn puts it
-- exactly into its place, and its animation is over.
animate-IsOpening :
    (now later : ℕ) (t : Toplevel)
    → IsOpening t
    → now ≤ later
    → ((t.open_to_y ≤ℤ (animate now t).node_y) × ((animate now t).node_y ≤ℤ t.open_from_y))
      × ((animate later t).node_y ≤ℤ (animate now t).node_y)
      × (t.open_start_ms + open_ms ≤ now
          → animate now t ≡ record t { opening = false; node_y = t.open_to_y })
animate-IsOpening now later t h l = (
  animate_within now t h,
  animate_falls now later t h l,
  λ k. animate_late now t h.opening (ground arith),
)

-- A window that is opening has begun 14 units below its place.
abbrev pub BeganBelow : Toplevel → Type 0
BeganBelow t = (t.opening ≡ false) ⊎ (t.open_from_y ≡ t.open_to_y +ℤ pos 14)

abbrev pub IsPending : ℕ → Toplevel → Type 0
IsPending now t = (t.opening ≡ true) × (now < t.open_start_ms + 220)

abbrev pub IsOver : ℕ → Toplevel → Type 0
IsOver now t = (t.opening ≡ false) ⊎ (t.open_start_ms + 220 ≤ now)

-- What a turn of the timer at `now` makes of a window: it is left alone, or put into its place for
-- good, or put somewhere between its place and 14 units below.
abbrev pub Turned : ℕ → Toplevel → Toplevel → Type 0
Turned now t u =
    ((t.opening ≡ false) × (u ≡ t))
    ⊎ ((t.opening ≡ true)
        × (t.open_start_ms + 220 ≤ now)
        × (u ≡ record t { opening = false; node_y = t.open_to_y }))
    ⊎ (IsPending now t
        × (u ≡ record t { node_y = u.node_y })
        × (t.open_to_y ≤ℤ u.node_y)
        × (u.node_y ≤ℤ t.open_to_y +ℤ pos 14))

abbrev pub AllTurned : ℕ → List Toplevel → List Toplevel → Type 0
AllTurned now [] [] = Unit
AllTurned now [] (u ∷ us) = ⊥
AllTurned now (t ∷ ts) [] = ⊥
AllTurned now (t ∷ ts) (u ∷ us) = Turned now t u × AllTurned now ts us

animate_still : (now : ℕ) (t : Toplevel) → t.opening ≡ false → animate now t ≡ t
unfolding animate
animate_still now t h = rw h refl

began-IsOpening : (t : Toplevel) → BeganBelow t → t.opening ≡ true → IsOpening t
began-IsOpening t (inl h) e = absurd (cc)
began-IsOpening t (inr h) e = record { opening = e; from_below = h }

animate-Turned : (now : ℕ) (t : Toplevel) → BeganBelow t → Turned now t (animate now t)
animate-Turned now t b = elim (Bool-cases t.opening) [
  | inr e ↦ inl (e, animate_still now t e)
  | inl e ↦ elim (Bool-cases (leb open_ms (now - t.open_start_ms))) [
    | inl f ↦ inr (inl (e, ground arith, animate_late now t e f))
    | inr f ↦
        let o = began-IsOpening t b e in
        let (low, high) = animate_within now t o in
        inr (
          inr (
            (e, ground arith),
            rw (animate_early now t e f) refl,
            low,
            subst (λ z. (animate now t).node_y ≤ℤ z) o.from_below high,
          ))
  ]
]

-- Whether the window is still opening behind the turn.
animate-opening :
    (now : ℕ) (t : Toplevel)
    → (((animate now t).opening ≡ true) × IsPending now t)
      ⊎ (((animate now t).opening ≡ false) × IsOver now t)
animate-opening now t = elim (Bool-cases t.opening) [
  | inr e ↦ inr (ap (λ u. u.opening) (animate_still now t e) ∙ e, inl e)
  | inl e ↦ elim (Bool-cases (leb open_ms (now - t.open_start_ms))) [
    | inl f ↦ inr (ap (λ u. u.opening) (animate_late now t e f), inr (ground arith))
    | inr f ↦ inl (ap (λ u. u.opening) (animate_early now t e f) ∙ e, (e, ground arith))
  ]
]

abbrev pub AnyPending : ℕ → List Toplevel → Type 0
AnyPending now [] = ⊥
AnyPending now (t ∷ ts) = IsPending now t ⊎ AnyPending now ts

-- The timer is armed exactly for a window that has not arrived.
animate_all-is_active :
    (now : ℕ) (ts : List Toplevel)
    → ((is_active (animate_all now ts) ≡ true) × AnyPending now ts)
      ⊎ ((is_active (animate_all now ts) ≡ false) × All (IsOver now) ts)
unfolding is_active animate_all
animate_all-is_active now [] = inr (refl, tt)
animate_all-is_active now (t ∷ ts) = elim (animate-opening now t) [
  | inl (h, p) ↦ inl (rw h refl, inl p)
  | inr (h, p) ↦ elim (animate_all-is_active now ts) [
    | inl (k, q) ↦ inl (rw (h, k) refl, inr q)
    | inr (k, q) ↦ inr (rw (h, k) refl, (p, q))
  ]
]

animate_all-AllTurned :
    (now : ℕ) (ts : List Toplevel) → All BeganBelow ts → AllTurned now ts (animate_all now ts)
unfolding animate_all
animate_all-AllTurned now [] h = tt
animate_all-AllTurned now (t ∷ ts) h = (animate-Turned now t h.0, animate_all-AllTurned now ts h.1)

-- When the windows that are opening began 14 units below their places, a turn of the timer leaves
-- each window that is not opening alone, puts each that began at least 220 milliseconds ago into
-- its place and ends its opening, and puts each other one between its place and 14 units below,
-- still opening. The timer is armed again when a window is opening that began less than 220
-- milliseconds ago, and otherwise it is not.
pub animate_windows_lem :
    (now : ℕ) (s : Server)
    → All BeganBelow s.toplevels
    → AllTurned now s.toplevels (animate_windows now s).0.toplevels
      × ((((animate_windows now s).1 ≡ true) × AnyPending now s.toplevels)
          ⊎ (((animate_windows now s).1 ≡ false) × All (IsOver now) s.toplevels))
unfolding animate_windows
animate_windows_lem now s h =
    (animate_all-AllTurned now s.toplevels h, animate_all-is_active now s.toplevels)
