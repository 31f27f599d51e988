-- ===== src/Comp/Windows.antt =====
-- The vectors of windows and layers: lookup by pointer, change in place, `erase(remove_if(...))`.
use finn_os.Base.{
  ℕ, ◌≡◌, refl, Bool, true, false, not, ◌&&◌, ◌||◌, Option, none, some, List, [], ◌∷◌, ◌++◌, arith,
  ◌==◌, if◌then◌else◌, Bool-cases, inl, inr,
}
use finn_os.Comp.State.{Toplevel, Layer}

unfoldable pub find : ℕ → List Toplevel → Option Toplevel
find i [] = none
find i (t ∷ ts) = let rest = find i ts in if t.id == i then some t else rest

unfoldable pub has : ℕ → List Toplevel → Bool
has i [] = false
has i (t ∷ ts) = t.id == i || has i ts

-- The object `i` is changed where it stands.
unfoldable pub update : ℕ → (Toplevel → Toplevel) → List Toplevel → List Toplevel
update i f [] = []
update i f (t ∷ ts) = (if t.id == i then f t else t) ∷ update i f ts

unfoldable pub remove : ℕ → List Toplevel → List Toplevel
remove i [] = []
remove i (t ∷ ts) = let rest = remove i ts in if t.id == i then rest else t ∷ rest

unfoldable pub has_layer : ℕ → List Layer → Bool
has_layer i [] = false
has_layer i (l ∷ ls) = l.id == i || has_layer i ls

unfoldable pub remove_layer_of : ℕ → List Layer → List Layer
remove_layer_of i [] = []
remove_layer_of i (l ∷ ls) = let rest = remove_layer_of i ls in if l.id == i then rest else l ∷ rest

unfoldable pub set_configured : ℕ → List Layer → List Layer
set_configured i [] = []
set_configured i (l ∷ ls) =
    (if l.id == i then record l { configured = true } else l) ∷ set_configured i ls

-- A pointer to a window is null, or points to one that is there.
abbrev pub IsAlive : Option ℕ → List Toplevel → Type 0
IsAlive none ts = Unit
IsAlive (some i) ts = has i ts ≡ true

abbrev pub IsAliveLayer : Option ℕ → List Layer → Type 0
IsAliveLayer none ls = Unit
IsAliveLayer (some i) ls = has_layer i ls ≡ true

-- A change that keeps the pointer.
abbrev pub KeepsId : (Toplevel → Toplevel) → Type 0
KeepsId f = (t : Toplevel) → (f t).id ≡ t.id

pub has-update :
    (i j : ℕ) (f : Toplevel → Toplevel) (ts : List Toplevel)
    → KeepsId f
    → has j (update i f ts) ≡ has j ts
unfolding has update
has-update i j f [] k = refl
has-update i j f (t ∷ ts) k = ground (arith, has-update i j f ts k, k t)

pub has-remove : (i j : ℕ) (ts : List Toplevel) → has j (remove i ts) ≡ (not (i == j) && has j ts)
unfolding has remove
has-remove i j [] = ground arith
has-remove i j (t ∷ ts) = ground (arith, has-remove i j ts)

pub has-append : (j : ℕ) (ts us : List Toplevel) → has j (ts ++ us) ≡ (has j ts || has j us)
unfolding has
has-append j [] us = refl
has-append j (t ∷ ts) us = ground (arith, has-append j ts us)

pub has_layer-remove :
    (i j : ℕ) (ls : List Layer)
    → has_layer j (remove_layer_of i ls) ≡ (not (i == j) && has_layer j ls)
unfolding has_layer remove_layer_of
has_layer-remove i j [] = ground arith
has_layer-remove i j (l ∷ ls) = ground (arith, has_layer-remove i j ls)

pub has_layer-set_configured :
    (i j : ℕ) (ls : List Layer) → has_layer j (set_configured i ls) ≡ has_layer j ls
unfolding has_layer set_configured
has_layer-set_configured i j [] = refl
has_layer-set_configured i j (l ∷ ls) = ground (arith, has_layer-set_configured i j ls)

pub has_layer-append :
    (j : ℕ) (ls ms : List Layer) → has_layer j (ls ++ ms) ≡ (has_layer j ls || has_layer j ms)
unfolding has_layer
has_layer-append j [] ms = refl
has_layer-append j (l ∷ ls) ms = ground (arith, has_layer-append j ls ms)

pub IsAlive-update :
    (o : Option ℕ) (i : ℕ) (f : Toplevel → Toplevel) (ts : List Toplevel)
    → KeepsId f
    → IsAlive o ts
    → IsAlive o (update i f ts)
IsAlive-update none i f ts k h = tt
IsAlive-update (some j) i f ts k h = rw (has-update i j f ts k) h

pub IsAlive-append : (o : Option ℕ) (ts us : List Toplevel) → IsAlive o ts → IsAlive o (ts ++ us)
IsAlive-append none ts us h = tt
IsAlive-append (some j) ts us h = ground (arith, has-append j ts us)

-- What is found has the pointer, and is there.
pub find_id :
    (i : ℕ) (ts : List Toplevel) {t : Toplevel}
    → find i ts ≡ some t
    → (t.id ≡ i) × (has i ts ≡ true)
unfolding find has
find_id i [] h = cc
find_id i (x ∷ ts) {t} h = elim (Bool-cases (x.id == i)) [
  | inl e ↦ ground arith
  | inr e ↦ let r = find_id i ts {t = t} (rw e at h) in (r.0, ground arith)
]

pub find-update :
    (i : ℕ) (f : Toplevel → Toplevel) (ts : List Toplevel) (t : Toplevel)
    → KeepsId f
    → find i ts ≡ some t
    → find i (update i f ts) ≡ some (f t)
unfolding find update
find-update i f [] t k h = cc
find-update i f (x ∷ ts) t k h = ground (arith, find-update i f ts t k, k x)
