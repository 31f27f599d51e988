-- ===== src/Ui/Widgets/Typing.antt =====
-- What typing makes of the value of a text field of src/ui/canvas.cpp.
use finn_os.Base.{
  ℕ, zero, suc, ◌≡◌, refl, sym, ap, ap₂, ◌∙◌, append_assoc, append-nil, Bool, true, false, not,
  ◌&&◌, ◌||◌, List, [], ◌∷◌, ◌++◌, is_empty, length, arith, if◌then◌else◌, &&-true,
}
use finn_os.Text.Raw.{Bytes, equal, equal_refl}
use finn_os.Ui.State.{Rect, KeyEvent}
use finn_os.Ui.Widgets.{
  Canvas, is_continuation, pop_continuations, pop_back, erase, is_backspace, is_enter, take_keys,
  focus_field, type_into, track_rect, hovers, set_active, text_field,
}

unfoldable pub erased : ℕ → Bytes → Bytes
unfolding erase
erased zero value = value
erased (suc n) value = erase (erased n value)

-- The backspaces that count: those before the first enter.
unfoldable pub backspaces : List KeyEvent → ℕ
backspaces [] = 0
backspaces (event ∷ events) =
    let rest = backspaces events in
    if is_enter event.key then 0 else if is_backspace event.key then suc rest else rest

unfoldable pub any_enter : List KeyEvent → Bool
any_enter [] = false
any_enter (event ∷ events) = is_enter event.key || any_enter events

erased-erase : (n : ℕ) (value : Bytes) → erased n (erase value) ≡ erase (erased n value)
unfolding erased
erased-erase zero value = refl
erased-erase (suc n) value = ap erase (erased-erase n value)

erase-nil : (value : Bytes) → is_empty value ≡ true → erase value ≡ value
unfolding erase pop_continuations pop_back
erase-nil [] h = refl
erase-nil (c ∷ cs) h = ground arith

-- The guard for an empty value changes nothing.
guarded :
    (b : Bool) (value : Bytes)
    → (if b && not (is_empty value) then erase value else value)
      ≡ (if b then erase value else value)
guarded b value = let nothing = erase-nil value in ground arith

-- One key before others.
take_one :
    (enters erases : Bool) (n : ℕ) (any : Bool) (value : Bytes) (events : List KeyEvent)
    → ((v : Bytes) → take_keys events v ≡ (erased n v, any))
    → (if enters then (value, true) else take_keys events (if erases then erase value else value))
      ≡ (erased (if enters then 0 else if erases then suc n else n) value, enters || any)
unfolding erased
take_one true erases n any value events h = refl
take_one false true n any value events h =
    h (erase value) ∙ ap (λ v. (v, any)) (erased-erase n value)
take_one false false n any value events h = h value

take_keys_lem :
    (events : List KeyEvent) (value : Bytes)
    → take_keys events value ≡ (erased (backspaces events) value, any_enter events)
unfolding take_keys backspaces any_enter erased
take_keys_lem [] value = refl
take_keys_lem (event ∷ events) value =
    ap {A = Bytes} (λ v. if is_enter event.key then (value, true) else take_keys events v)
      (guarded (is_backspace event.key) value)
    ∙ take_one (is_enter event.key) (is_backspace event.key) (backspaces events) (any_enter events)
        value events (take_keys_lem events)

calm-focus_field :
    (id : Bytes) (rect : Rect) (c : Canvas)
    → c.input.pointer_pressed ≡ false
    → focus_field id rect c ≡ c
unfolding focus_field
calm-focus_field id rect c calm =
    ap {A = Bool} {B = Canvas}
      (λ b.
        if not b
        then c
        else if hovers rect c.input
        then record c { focus = id; states = set_active id true c.states }
        else if equal c.focus id
        then record c { focus = []; states = set_active id false c.states }
        else c)
      calm

focused-type_into :
    (id : Bytes) (value : Bytes) (c : Canvas)
    → c.focus ≡ id
    → type_into id value c ≡ (
      record c { input = record c.input { text = [] } },
      erased (backspaces c.input.keys) (value ++ c.input.text),
      any_enter c.input.keys,
    )
unfolding type_into
focused-type_into id value c focused =
    let same : equal c.focus id ≡ true = ap (λ f. equal f id) focused ∙ equal_refl id in
    let t = record c { input = record c.input { text = [] } } in
    rw same (
      ap {A = Bytes × Bool} (λ taken. (t, taken.0, taken.1))
        (take_keys_lem c.input.keys (value ++ c.input.text)))

-- A field that has the focus and is not pressed: all the text of the frame comes before its
-- backspaces, those behind an enter are not heard, and the field answers whether there is an enter.
pub text_field_lem :
    (id : Bytes) (rect : Rect) (value : Bytes) (c : Canvas)
    → c.focus ≡ id
    → c.input.pointer_pressed ≡ false
    → ((text_field id rect value c).1 ≡ erased (backspaces c.input.keys) (value ++ c.input.text))
      × ((text_field id rect value c).2 ≡ any_enter c.input.keys)
unfolding text_field
text_field_lem id rect value c focused calm =
    let whole =
      ap (type_into id value) (calm-focus_field id rect (track_rect rect c) calm)
      ∙ focused-type_into id value (track_rect rect c) focused in
    (ap (λ r. r.1) whole, ap (λ r. r.2) whole)

-- A code point in UTF-8: one byte, and then bytes that continue it.
unfoldable all_continuations : Bytes → Bool
all_continuations [] = true
all_continuations (c ∷ cs) = is_continuation c && all_continuations cs

unfoldable pub is_char : Bytes → Bool
unfolding all_continuations
is_char [] = false
is_char (c ∷ cs) = not (is_continuation c) && all_continuations cs

pop_continuations_all : (cs : Bytes) → all_continuations cs ≡ true → pop_continuations cs ≡ []
unfolding all_continuations pop_continuations
pop_continuations_all [] h = refl
pop_continuations_all (c ∷ cs) h =
    let rest = pop_continuations_all cs (&&-true (is_continuation c) (all_continuations cs) h).1 in
    ground arith

-- The first byte of the last code point stays.
pop_continuations-char :
    (value : Bytes) (c : ℕ) (cs : Bytes)
    → is_continuation c ≡ false
    → all_continuations cs ≡ true
    → pop_continuations (value ++ (c ∷ cs)) ≡ value ++ (c ∷ [])
unfolding pop_continuations
pop_continuations-char [] c cs first h = let rest = pop_continuations_all cs h in ground arith
pop_continuations-char (d ∷ []) c cs first h =
    let rest = pop_continuations-char [] c cs first h in ground arith
pop_continuations-char (d ∷ (e ∷ value)) c cs first h =
    let rest = pop_continuations-char (e ∷ value) c cs first h in ground arith

pop_back-append : (value : Bytes) (c : ℕ) → pop_back (value ++ (c ∷ [])) ≡ value
unfolding pop_back
pop_back-append [] c = refl
pop_back-append (d ∷ []) c = refl
pop_back-append (d ∷ (e ∷ value)) c = ap (◌∷◌ d) (pop_back-append (e ∷ value) c)

erase-char : (value char : Bytes) → is_char char ≡ true → erase (value ++ char) ≡ value
unfolding is_char erase
erase-char value [] h = ground arith
erase-char value (c ∷ cs) h =
    let parts = &&-true (not (is_continuation c)) (all_continuations cs) h in
    let first = parts.0 in
    let popped = pop_continuations-char value c cs (ground arith) parts.1 in
    ap pop_back popped ∙ pop_back-append value c

unfoldable pub all_chars : List Bytes → Bool
unfolding is_char
all_chars [] = true
all_chars (char ∷ chars) = is_char char && all_chars chars

unfoldable pub joined : List Bytes → Bytes
joined [] = []
joined (char ∷ chars) = char ++ joined chars

erased-joined :
    (value : Bytes) (chars : List Bytes)
    → all_chars chars ≡ true
    → erased (length chars) (value ++ joined chars) ≡ value
unfolding all_chars joined erased
erased-joined value [] h = append-nil value
erased-joined value (char ∷ chars) h =
    let parts = &&-true (is_char char) (all_chars chars) h in
    ap (λ bytes. erase (erased (length chars) bytes)) (sym (append_assoc value char (joined chars)))
    ∙ (ap erase (erased-joined (value ++ char) chars parts.1) ∙ erase-char value char parts.0)

-- In a field that has the focus and is not pressed: where a frame brings a text of whole code
-- points, and before any enter as many backspaces as code points, the value stays as it was.
pub text_field-restored :
    (id : Bytes) (rect : Rect) (value : Bytes) (chars : List Bytes) (c : Canvas)
    → c.focus ≡ id
    → c.input.pointer_pressed ≡ false
    → c.input.text ≡ joined chars
    → all_chars chars ≡ true
    → backspaces c.input.keys ≡ length chars
    → (text_field id rect value c).1 ≡ value
text_field-restored id rect value chars c focused calm typed whole enough =
    (text_field_lem id rect value c focused calm).0
    ∙ (ap₂ (λ n text. erased n (value ++ text)) enough typed ∙ erased-joined value chars whole)
