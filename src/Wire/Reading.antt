-- ===== src/Wire/Reading.antt =====
-- What `read_line` takes from a stream that delivers a text, with interruptions anywhere.
use finn_os.Base.{
  ℕ, suc, ◌+◌, ◌≤◌, ◌<◌, ◌≡◌, ◌≢◌, refl, sym, ap, subst, ◌∙◌, none, some, List, [], ◌∷◌, ◌++◌,
  append_assoc, append-nil, arith, leb, length, length-append, Bool-cases, inl, inr, take, drop,
  take-append-drop, length-take, All-append_left,
}
use finn_os.Text.Raw.{Bytes, Without}
use finn_os.Wire.{ReadOutcome, line_limit, read_onto, read_line}

-- The outcomes are the bytes of the text, with interruptions, and then `rest`.
pub data Delivers : Bytes → List ReadOutcome → List ReadOutcome → Type 0 where
  nothing : {rest : List ReadOutcome} → Delivers [] rest rest
  next :
      {c : ℕ} {text : Bytes} {outcomes rest : List ReadOutcome}
      → Delivers text outcomes rest
      → Delivers (c ∷ text) (ReadOutcome.byte c ∷ outcomes) rest
  again :
      {text : Bytes} {outcomes rest : List ReadOutcome}
      → Delivers text outcomes rest
      → Delivers text (ReadOutcome.interrupted ∷ outcomes) rest

-- The line is read whole, and what is behind it is still to come.
record Reads (before line : Bytes) (outcomes rest : List ReadOutcome) (behind : Bytes)
    : Type 0 where
  mid : List ReadOutcome
  reads : read_onto before outcomes ≡ (some (before ++ line), mid)
  behind_comes : Delivers behind mid rest

read_feed :
    (before behind : Bytes) (c : ℕ) (text : Bytes) (outcomes rest : List ReadOutcome)
    → Delivers text outcomes rest
    → c ≡ b'\n'
    → text ≡ behind
    → Reads before [] (ReadOutcome.byte c ∷ outcomes) rest behind
unfolding read_onto
read_feed before behind c text outcomes rest d e f = record {
  mid = outcomes;
  reads = ground (arith, append-nil before);
  behind_comes = subst (λ t. Delivers t outcomes rest) f d;
}

read_byte :
    (before line behind : Bytes) (c : ℕ) (outcomes rest : List ReadOutcome)
    → c ≢ b'\n'
    → length before < line_limit
    → Reads (before ++ (c ∷ [])) line outcomes rest behind
    → Reads before (c ∷ line) (ReadOutcome.byte c ∷ outcomes) rest behind
unfolding read_onto
read_byte before line behind c outcomes rest n h r = record {
  mid = r.mid;
  reads = ground (arith, r.reads, append_assoc before (c ∷ []) line);
  behind_comes = r.behind_comes;
}

read_again :
    (before line behind : Bytes) (outcomes rest : List ReadOutcome)
    → Reads before line outcomes rest behind
    → Reads before line (ReadOutcome.interrupted ∷ outcomes) rest behind
unfolding read_onto
read_again before line behind outcomes rest r = record {
  mid = r.mid;
  reads = r.reads;
  behind_comes = r.behind_comes;
}

Reads-line :
    (line before behind : Bytes) {text : Bytes} {outcomes rest : List ReadOutcome}
    → Delivers text outcomes rest
    → text ≡ line ++ (b'\n' ∷ behind)
    → Without b'\n' line
    → length before + length line ≤ line_limit
    → Reads before line outcomes rest behind
Reads-line [] before behind nothing e w h = cc
Reads-line (x ∷ line) before behind nothing e w h = cc
Reads-line [] before behind (next {c} {text} {outcomes} {rest} d) e w h =
    read_feed before behind c text outcomes rest d (cc) (cc)
Reads-line (x ∷ line) before behind (next {c} {text} {outcomes} {rest} d) e w h =
    let head : x ≡ c = cc in
    rw head (
      read_byte before line behind c outcomes rest (rw head at w.0) (omega arith) (
        Reads-line line (before ++ (c ∷ [])) behind d (cc) w.1
          (omega (arith, length-append before (c ∷ [])))))
Reads-line [] before behind (again {outcomes} {rest} d) e w h =
    read_again _ _ _ outcomes rest (Reads-line [] before behind d e w h)
Reads-line (x ∷ line) before behind (again {outcomes} {rest} d) e w h =
    read_again _ _ _ outcomes rest (Reads-line (x ∷ line) before behind d e w h)

-- From a stream that delivers a line of at most 4096 bytes, its line feed and more text, with
-- interruptions anywhere, `read_line` returns the line, and the stream then delivers the rest.
pub read_line-Delivers :
    (line behind : Bytes) (outcomes rest : List ReadOutcome)
    → Delivers (line ++ (b'\n' ∷ behind)) outcomes rest
    → Without b'\n' line
    → length line ≤ line_limit
    → (mid : List ReadOutcome) × (read_line outcomes ≡ (some line, mid)) × Delivers behind mid rest
read_line-Delivers line behind outcomes rest d w h =
    let r = Reads-line line [] behind d refl w (omega arith) in (r.mid, r.reads, r.behind_comes)

overlong :
    (line before : Bytes) {text : Bytes} {outcomes rest : List ReadOutcome} (behind : Bytes)
    → Delivers text outcomes rest
    → text ≡ line ++ behind
    → Without b'\n' line
    → length before + length line ≡ suc line_limit
    → length before ≤ line_limit
    → (read_onto before outcomes).0 ≡ none
unfolding read_onto
overlong [] before behind d e w h k = absurd (omega arith)
overlong (x ∷ line) before behind nothing e w h k = cc
overlong (x ∷ line) before behind (next {c} d) e w h k =
    let head : x ≡ c = cc in
    elim (Bool-cases (leb line_limit (length before))) [
      | inl full ↦ ground (arith, w.0)
      | inr free ↦
          let rest_none =
            overlong line (before ++ (c ∷ [])) behind d (cc) w.1
              (omega (arith, length-append before (c ∷ [])))
              (ground (arith, length-append before (c ∷ []))) in
          ground (arith, w.0, rest_none)
    ]
overlong (x ∷ line) before behind (again d) e w h k = overlong (x ∷ line) before behind d e w h k

take_overlong :
    (n : ℕ) (line behind : Bytes) (outcomes rest : List ReadOutcome)
    → n ≡ suc line_limit
    → Delivers (line ++ behind) outcomes rest
    → Without b'\n' line
    → n ≤ length line
    → (read_line outcomes).0 ≡ none
take_overlong n line behind outcomes rest e d w h =
    let split = take-append-drop n line in
    overlong (take n line) [] (drop n line ++ behind) d
      (ap (λ l. l ++ behind) (sym split) ∙ append_assoc (take n line) (drop n line) behind)
      (All-append_left _ (take n line) (drop n line) (subst (Without b'\n') (sym split) w))
      (omega (arith, length-take n line h)) (omega arith)

-- A stream that delivers more than 4096 bytes with no line feed among them gives no line,
-- whatever follows and wherever it is interrupted.
pub read_line_overlong :
    (line behind : Bytes) (outcomes rest : List ReadOutcome)
    → Delivers (line ++ behind) outcomes rest
    → Without b'\n' line
    → line_limit < length line
    → (read_line outcomes).0 ≡ none
read_line_overlong line behind outcomes rest d w h =
    take_overlong (suc line_limit) line behind outcomes rest refl d w h
