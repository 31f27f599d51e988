-- ===== src/Ui/Exchange/Steps.antt =====
-- The moves of the exchange between the client of src/ui/app.cpp and its compositor.
use finn_os.Base.{
  ℕ, suc, ◌-◌, ◌≡◌, refl, sym, ◌∙◌, subst, Bool, true, false, some, List, [], ◌∷◌, ◌++◌,
  append_assoc, append-nil, length,
}
use finn_os.Base.Int.{ℤ}
use finn_os.Ui.State.{Input, ShmBuffer, Client}
use finn_os.Ui.Frames.{first_free, set_busy}
use finn_os.Ui.Quiet.{Core, core}

-- A frame that is drawn into a buffer and handed over.
abbrev pub drawn : ShmBuffer → Input → Core → Core
drawn target input k = record k {
  buffers = set_busy target.id true k.buffers;
  handed = k.handed ++ (target.id ∷ []);
  in_draw = false;
  seen = k.seen ++ (input ∷ []);
}

abbrev pub cleared : Core → Core
cleared k = record k { buffers = []; mapped = k.mapped - length k.buffers }

abbrev pub fresh : Core → ℕ → ShmBuffer
fresh k bytes = record { id = k.next_buffer; bytes = bytes; busy = false }

abbrev pub added : ℕ → Core → Core
added bytes k = record k {
  buffers = k.buffers ++ (fresh k bytes ∷ []);
  next_buffer = suc k.next_buffer;
  mapped = suc k.mapped;
}

abbrev pub resized : ℤ × ℤ × ℕ → Bool → Core → Core
resized size configured k = record k { size = size; configured = configured }

abbrev pub closed : Core → Core
closed k = record k { close_requested = true; running = false; closes = suc k.closes }

-- Moves of the client, with the buffers that it hands over, in their order.
pub data Moves : Core → List ℕ → Core → Type 0 where
  still : {k : Core} → Moves k [] k
  draws :
      {k k' : Core} {given : List ℕ} (target : ShmBuffer) (input : Input)
      → first_free k.buffers ≡ some target
      → Moves (drawn target input k) given k'
      → Moves k (target.id ∷ given) k'
  clears : {k k' : Core} {given : List ℕ} → Moves (cleared k) given k' → Moves k given k'
  adds :
      {k k' : Core} {given : List ℕ} (bytes : ℕ) → Moves (added bytes k) given k' → Moves k given k'
  resizes :
      {k k' : Core} {given : List ℕ} (size : ℤ × ℤ × ℕ) (configured : Bool)
      → Moves (resized size configured k) given k'
      → Moves k given k'
  ends :
      {k k' : Core} {given : List ℕ}
      → k.close_requested ≡ false
      → Moves (closed k) given k'
      → Moves k given k'

Moves-trans : {k l m : Core} {xs ys : List ℕ} → Moves k xs l → Moves l ys m → Moves k (xs ++ ys) m
Moves-trans still q = q
Moves-trans (draws target input h p) q = draws target input h (Moves-trans p q)
Moves-trans (clears p) q = clears (Moves-trans p q)
Moves-trans (adds bytes p) q = adds bytes (Moves-trans p q)
Moves-trans (resizes size configured p) q = resizes size configured (Moves-trans p q)
Moves-trans (ends unasked p) q = ends unasked (Moves-trans p q)

pub Moves-handed : {k l : Core} {xs : List ℕ} → Moves k xs l → l.handed ≡ k.handed ++ xs
Moves-handed {k} still = sym (append-nil k.handed)
Moves-handed {k} (draws {given = given} target input h p) =
    Moves-handed p ∙ append_assoc k.handed (target.id ∷ []) given
Moves-handed (clears p) = Moves-handed p
Moves-handed (adds bytes p) = Moves-handed p
Moves-handed (resizes size configured p) = Moves-handed p
Moves-handed (ends unasked p) = Moves-handed p

-- A client that does not draw does not draw afterwards.
pub Moves-in_draw :
    {k l : Core} {xs : List ℕ} → Moves k xs l → k.in_draw ≡ false → l.in_draw ≡ false
Moves-in_draw still h = h
Moves-in_draw (draws target input free p) h = Moves-in_draw p refl
Moves-in_draw (clears p) h = Moves-in_draw p h
Moves-in_draw (adds bytes p) h = Moves-in_draw p h
Moves-in_draw (resizes size configured p) h = Moves-in_draw p h
Moves-in_draw (ends unasked p) h = Moves-in_draw p h

-- Between two clients.
abbrev pub Moved : Client → Client → Type 0
Moved c t = (given : List ℕ) × Moves (core c) given (core t)

pub Moved-same : (c t : Client) → core t ≡ core c → Moved c t
Moved-same c t e = ([], subst (λ k. Moves (core c) [] k) (sym e) still)

pub Moved-trans : (c t u : Client) → Moved c t → Moved t u → Moved c u
Moved-trans c t u (xs, p) (ys, q) = (xs ++ ys, Moves-trans p q)
