-- ===== src/Registry/Fields.antt =====
-- The fields of a catalogue line: `split_fields` of src/session/app_registry.cpp.
use finn_os.Base.{
  ℕ, zero, suc, ◌+◌, ◌≤◌, ◌≡◌, none, some, List, [], ◌∷◌, arith, length, All, Option-cases, inl,
  inr,
}
use finn_os.Text.Raw.{Bytes, Without}
use finn_os.Text.Trim.{trim, IsTrimmed, trim-IsTrimmed, trim-All, length-trim}
use finn_os.Text.Split.{cut, cut-Without, cut-All, length-cut}
use finn_os.Registry.Defs.{split_fields}

-- A field can be written between bars on a line, and is trimmed.
pub record IsField (s : Bytes) : Type 0 where
  pub no_bar : Without b'|' s
  pub no_feed : Without b'\n' s
  pub trimmed : IsTrimmed s

abbrev pub width : List Bytes → ℕ
width [] = 0
width (f ∷ fs) = suc (length f + width fs)

pub trim-IsField : (s : Bytes) → Without b'|' s → Without b'\n' s → IsField (trim s)
trim-IsField s b f = record {
  no_bar = trim-All _ s b;
  no_feed = trim-All _ s f;
  trimmed = trim-IsTrimmed s;
}

pub nil-IsField : IsField []
nil-IsField = record { no_bar = tt; no_feed = tt; trimmed = record { front = tt; back = tt } }

pub split_fields_last :
    (room : ℕ) (line : Bytes)
    → (cut b'|' line).1 ≡ none
    → split_fields (suc room) line ≡ trim (cut b'|' line).0 ∷ []
unfolding split_fields
split_fields_last room line e = rw (e, split_fields)

pub split_fields_more :
    (room : ℕ) (line behind : Bytes)
    → (cut b'|' line).1 ≡ some behind
    → split_fields (suc room) line ≡ trim (cut b'|' line).0 ∷ split_fields room behind
unfolding split_fields
split_fields_more room line behind e = rw (e, split_fields)

pub split_fields-IsField :
    (room : ℕ) (line : Bytes) → Without b'\n' line → All IsField (split_fields room line)
unfolding split_fields
split_fields-IsField zero line h = tt
split_fields-IsField (suc room) line h =
    let head = trim-IsField _ (cut-Without b'|' line) (cut-All _ b'|' line h).0 in
    elim (Option-cases (cut b'|' line).1) [
      | inl e ↦ rw (split_fields_last room line e) (head, tt)
      | inr (behind, e) ↦
          rw (split_fields_more room line behind e)
            (head, split_fields-IsField room behind (rw e at (cut-All _ b'|' line h).1))
    ]

pub width-split_fields :
    (room : ℕ) (line : Bytes) → width (split_fields room line) ≤ suc (length line)
unfolding split_fields
width-split_fields zero line = omega arith
width-split_fields (suc room) line = elim (Option-cases (cut b'|' line).1) [
  | inl e ↦
      rw (split_fields_last room line e)
        (omega (arith, length-trim (cut b'|' line).0, length-cut b'|' line))
  | inr (behind, e) ↦ rw (split_fields_more room line behind e) (
      omega (
        arith,
        length-trim (cut b'|' line).0,
        rw e at (length-cut b'|' line),
        width-split_fields room behind,
      ))
]
