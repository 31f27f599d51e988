-- ===== src/Text/Decimal.antt =====
-- `std::to_string` of a natural number, and the conversion `%d` of `std::sscanf`.
use finn_os.Base.{
  ℕ, zero, suc, ◌+◌, ◌-◌, ◌*◌, ◌/◌, ◌%◌, ◌≤◌, ◌<◌, ◌≡◌, ap, ◌∙◌, Bool, true, false, ◌&&◌, [], ◌∷◌,
  ◌++◌, arith, ◌==◌, leb, ltb, length, length-append, if◌then◌else◌, Bool-cases, inl, inr,
  append_assoc, append-nil,
}
use finn_os.Text.Raw.{Bytes, Without}
use finn_os.Text.Trim.{is_space}

-- The digits of `n`, for more rounds than it has digits.
decimal : ℕ → ℕ → Bytes
decimal zero n = []
decimal (suc fuel) n =
    let front = decimal fuel (n / 10) in
    if ltb n 10 then (b'0' + n) ∷ [] else front ++ ((b'0' + n % 10) ∷ [])

unfoldable pub to_string : ℕ → Bytes
unfolding decimal
to_string n = decimal (suc n) n

unfoldable pub is_digit : ℕ → Bool
is_digit c = leb b'0' c && leb c b'9'

unfoldable pub scan_digits : ℕ → Bytes → ℕ
unfolding is_digit
scan_digits value [] = value
scan_digits value (c ∷ cs) =
    let rest = scan_digits (value * 10 + (c - b'0')) cs in if is_digit c then rest else value

-- What `%d` reads: a sign and a magnitude. The value is not cut to the width of `int`.
pub data Scan : Type 0 where
  no_match : Scan
  scanned : Bool → ℕ → Scan

unfoldable pub scan_magnitude : Bool → Bytes → Scan
unfolding scan_digits is_digit
scan_magnitude negative [] = no_match
scan_magnitude negative (c ∷ cs) =
    if is_digit c then scanned negative (scan_digits 0 (c ∷ cs)) else no_match

scan_signed : Bytes → Scan
unfolding scan_magnitude
scan_signed [] = no_match
scan_signed (c ∷ cs) =
    if c == b'-'
    then scan_magnitude true cs
    else if c == b'+'
    then scan_magnitude false cs
    else scan_magnitude false (c ∷ cs)

unfoldable pub scan_int : Bytes → Scan
unfolding scan_signed is_space
scan_int [] = no_match
scan_int (c ∷ cs) = let rest = scan_int cs in if is_space c then rest else scan_signed (c ∷ cs)

-- Every byte is a digit, and there is one.
pub data IsNumeral : Bytes → Type 0 where
  last : {c : ℕ} → is_digit c ≡ true → IsNumeral (c ∷ [])
  more : {c : ℕ} {cs : Bytes} → is_digit c ≡ true → IsNumeral cs → IsNumeral (c ∷ cs)

IsNumeral-concat : {s : Bytes} (c : ℕ) → IsNumeral s → is_digit c ≡ true → IsNumeral (s ++ (c ∷ []))
IsNumeral-concat c (last d) h = more d (last h)
IsNumeral-concat c (more d n) h = more d (IsNumeral-concat c n h)

digit-is_digit : (d : ℕ) → d < 10 → is_digit (b'0' + d) ≡ true
unfolding is_digit
digit-is_digit d h = ground arith

decimal-IsNumeral : (fuel n : ℕ) → n < fuel → IsNumeral (decimal fuel n)
unfolding decimal
decimal-IsNumeral zero n h = absurd (omega arith)
decimal-IsNumeral (suc fuel) n h = elim (Bool-cases (ltb n 10)) [
  | inl e ↦ rw e (last (digit-is_digit n (ground arith)))
  | inr e ↦ rw e (
      IsNumeral-concat (b'0' + n % 10) (decimal-IsNumeral fuel (n / 10) (ground arith))
        (digit-is_digit (n % 10) (omega arith)))
]

-- A digit after the digits of `m` makes `10 m + d`.
scan_digit :
    (d v : ℕ) (rest : Bytes)
    → d < 10
    → scan_digits v ((b'0' + d) ∷ rest) ≡ scan_digits (v * 10 + d) rest
unfolding scan_digits
scan_digit d v rest h =
    rw (digit-is_digit d h) (ap (λ k. scan_digits (v * 10 + k) rest) (omega arith))

scan_digits-decimal :
    (fuel n : ℕ) (rest : Bytes)
    → n < fuel
    → scan_digits 0 (decimal fuel n ++ rest) ≡ scan_digits n rest
unfolding decimal
scan_digits-decimal zero n rest h = absurd (omega arith)
scan_digits-decimal (suc fuel) n rest h = elim (Bool-cases (ltb n 10)) [
  | inl e ↦ rw e (scan_digit n 0 rest (ground arith) ∙ ap (λ k. scan_digits k rest) (omega arith))
  | inr e ↦ rw e (
      rw append_assoc (
        scan_digits-decimal fuel (n / 10) ((b'0' + n % 10) ∷ rest) (ground arith)
        ∙ scan_digit (n % 10) (n / 10) rest (omega arith)
        ∙ ap (λ k. scan_digits k rest) (omega arith)))
]

scan_int-IsNumeral : {s : Bytes} → IsNumeral s → scan_int s ≡ scanned false (scan_digits 0 s)
unfolding scan_int is_digit
scan_int-IsNumeral (last d) = ground arith
scan_int-IsNumeral (more d n) = ground arith

-- `%d` reads back what `to_string` prints.
pub scan_int-to_string : (n : ℕ) → scan_int (to_string n) ≡ scanned false n
unfolding to_string scan_digits
scan_int-to_string n =
    scan_int-IsNumeral (decimal-IsNumeral (suc n) n (omega arith))
    ∙ ap (scanned false)
        (rw (← append-nil (decimal (suc n) n)) (scan_digits-decimal (suc n) n [] (omega arith)))

IsNumeral-Without : (c : ℕ) {s : Bytes} → is_digit c ≡ false → IsNumeral s → Without c s
IsNumeral-Without c h (last d) = ((λ e. cc), tt)
IsNumeral-Without c h (more d n) = ((λ e. cc), IsNumeral-Without c h n)

-- Numbers are printed with digits only.
pub to_string-Without : (n c : ℕ) → is_digit c ≡ false → Without c (to_string n)
unfolding to_string
to_string-Without n c h = IsNumeral-Without c h (decimal-IsNumeral (suc n) n (omega arith))

length-decimal : (fuel n : ℕ) → length (decimal fuel n) ≤ suc (n / 10)
unfolding decimal
length-decimal zero n = omega arith
length-decimal (suc fuel) n = elim (Bool-cases (ltb n 10)) [
  | inl e ↦ rw e (omega arith)
  | inr e ↦ rw e (
      ground (
        arith,
        length-append (decimal fuel (n / 10)) ((b'0' + n % 10) ∷ []),
        length-decimal fuel (n / 10),
      ))
]

pub length-to_string : (n : ℕ) → length (to_string n) ≤ suc (n / 10)
unfolding to_string
length-to_string n = length-decimal (suc n) n
