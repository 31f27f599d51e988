-- ===== src/Ui/Buffers/Sizes.antt =====
-- The sizes of the buffers that `create_buffers` of src/ui/app.cpp makes.
use native.Mathlib.Nat.{mod-eq_of_lt, mul-le-mul}
use finn_os.Base.{
  ℕ, ◌*◌, ◌%◌, ◌^◌, ◌≤◌, ◌<◌, ◌≡◌, ◌⊎◌, inl, inr, refl, sym, ap, ap₂, ◌∙◌, subst, Bool, true, false,
  not, ◌||◌, List, [], ◌∷◌, ◌++◌, arith, length, All, Bool-cases,
}
use finn_os.Base.Int.{pos, pos_part, leb_ℤ, ltb_ℤ}
use finn_os.Ui.State.{ShmBuffer, Client}
use finn_os.Ui.Buffers.{
  Allocation, to_int32, to_size, buffer_limit, buffer_width, buffer_height, buffer_bytes, allocate,
  then_allocate, create_buffers, destroy_buffers,
}

-- The two sizes of the window in pixels, as numbers.
abbrev pub pixels_wide : Client → ℕ
pixels_wide c = pos_part c.width * c.scale

abbrev pub pixels_high : Client → ℕ
pixels_high c = pos_part c.height * c.scale

-- A buffer that is not busy and has four bytes for each pixel, at most 2 ^ 30.
pub record IsSized (c : Client) (b : ShmBuffer) : Type 0 where
  pub idle : b.busy ≡ false
  pub exact : b.bytes ≡ 4 * (pixels_wide c * pixels_high c)
  pub small : b.bytes ≤ 1073741824

to_int32_lem : (n : ℕ) → n < 2 ^ 31 → to_int32 n ≡ pos n
unfolding to_int32
to_int32_lem n h = ground arith

buffer_bytes_lem :
    (w h : ℕ)
    → w ≤ 16384
    → h ≤ 16384
    → ((w % 2 ^ 64) * 4 % 2 ^ 64) * (h % 2 ^ 64) % 2 ^ 64 ≡ 4 * (w * h)
buffer_bytes_lem w h a b =
    let area : w * h ≤ 268435456 = mul-le-mul {n₁ = w} {m₁ = h} {n₂ = 16384} {m₂ = 16384} a b in
    let wide : (w % 2 ^ 64) * 4 % 2 ^ 64 ≡ w * 4 =
      ap (λ n. n * 4 % 2 ^ 64) (mod-eq_of_lt (omega arith)) ∙ mod-eq_of_lt (omega arith) in
    let high : h % 2 ^ 64 ≡ h = mod-eq_of_lt (omega arith) in
    let same : w * 4 * h ≡ 4 * (w * h) = omega arith in
    ap₂ (λ n m. n * m % 2 ^ 64) wide high ∙ (ap (λ n. n % 2 ^ 64) same ∙ mod-eq_of_lt (omega arith))

made-IsSized :
    (c : Client)
    → pixels_wide c < 2 ^ 31
    → pixels_high c < 2 ^ 31
    → (ltb_ℤ (pos buffer_limit) (buffer_width c) || ltb_ℤ (pos buffer_limit) (buffer_height c))
      ≡ false
    → IsSized c (record { id = c.next_buffer; bytes = buffer_bytes c; busy = false })
unfolding buffer_bytes buffer_width buffer_height to_size
made-IsSized c w h fits =
    let wide = to_int32_lem (pixels_wide c) w in
    let high = to_int32_lem (pixels_high c) h in
    let limits =
      subst {A = Bool} (λ b. b ≡ false)
        (ap₂ (λ p q. ltb_ℤ (pos buffer_limit) p || ltb_ℤ (pos buffer_limit) q) wide high) fits in
    let narrow : pixels_wide c ≤ 16384 = ground arith in
    let low : pixels_high c ≤ 16384 = ground arith in
    let area : pixels_wide c * pixels_high c ≤ 268435456 =
      mul-le-mul {n₁ = pixels_wide c} {m₁ = pixels_high c} {n₂ = 16384} {m₂ = 16384} narrow low in
    let exact =
      ap₂ (λ p q. (to_size p * 4 % 2 ^ 64) * to_size q % 2 ^ 64) wide high
      ∙ buffer_bytes_lem (pixels_wide c) (pixels_high c) narrow low in
    record {
      idle = refl;
      exact = exact;
      small = subst {A = ℕ} (λ n. n ≤ 1073741824) (sym exact) (omega arith);
    }

-- How many buffers the flag stands for.
abbrev pub Counted : Client × Bool → Type 0
Counted (t, done) =
    ((done ≡ true) × (length t.buffers ≡ 2)) ⊎ ((done ≡ false) × (length t.buffers ≤ 1))

abbrev Filled : Client → Client × Bool → Type 0
Filled c r = All (IsSized c) r.0.buffers × Counted r

second_round :
    (second : Allocation) (c t : Client) (b : ShmBuffer)
    → t.buffers ≡ b ∷ []
    → IsSized c b
    → IsSized c (record { id = t.next_buffer; bytes = buffer_bytes t; busy = false })
    → Filled c (allocate second t)
unfolding allocate
second_round Allocation.no_memfd c t b e h k = rw e ((h, tt), inr (refl, omega arith))
second_round Allocation.no_size c t b e h k = rw e ((h, tt), inr (refl, omega arith))
second_round Allocation.no_map c t b e h k = rw e ((h, tt), inr (refl, omega arith))
second_round Allocation.no_pool c t b e h k = rw e ((h, tt), inr (refl, omega arith))
second_round Allocation.no_buffer c t b e h k = rw e ((h, tt), inr (refl, omega arith))
second_round Allocation.made c t b e h k = rw e ((h, (k, tt)), inl (refl, refl))

both_rounds :
    (first second : Allocation) (c : Client)
    → c.buffers ≡ []
    → IsSized c (record { id = c.next_buffer; bytes = buffer_bytes c; busy = false })
    → Filled c (then_allocate second (allocate first c))
unfolding allocate
both_rounds Allocation.no_memfd second c e k = rw e (tt, inr (refl, omega arith))
both_rounds Allocation.no_size second c e k = rw e (tt, inr (refl, omega arith))
both_rounds Allocation.no_map second c e k = rw e (tt, inr (refl, omega arith))
both_rounds Allocation.no_pool second c e k = rw e (tt, inr (refl, omega arith))
both_rounds Allocation.no_buffer second c e k = rw e (tt, inr (refl, omega arith))
both_rounds Allocation.made second c e k =
    second_round second c (allocate Allocation.made c).0 _
      (ap (λ bs. bs ++ (record { id = c.next_buffer; bytes = buffer_bytes c; busy = false } ∷ []))
        e)
      k (record { idle = refl; exact = k.exact; small = k.small })

-- When the window's sizes in pixels fit an `int`: whatever calls fail, each buffer that is made is
-- not busy and has four bytes for each pixel, and at most 2 ^ 30; and there are two of them when the
-- code returns true, and at most one when it returns false.
pub create_buffers_lem :
    (rounds : Allocation × Allocation) (c : Client)
    → pixels_wide c < 2 ^ 31
    → pixels_high c < 2 ^ 31
    → All (IsSized c) (create_buffers rounds c).0.buffers × Counted (create_buffers rounds c)
unfolding create_buffers destroy_buffers
create_buffers_lem (first, second) old w h =
    let c = destroy_buffers old in
    elim (Bool-cases (leb_ℤ c.width (pos 0) || (leb_ℤ c.height (pos 0) || not c.has_shm))) [
      | inl e ↦ rw e (tt, inr (refl, omega arith))
      | inr e ↦
          rw e
            (elim (Bool-cases (
              ltb_ℤ (pos buffer_limit) (buffer_width c)
              || ltb_ℤ (pos buffer_limit) (buffer_height c))) [
                | inl big ↦ rw big (tt, inr (refl, omega arith))
                | inr fits ↦ rw fits (
                    resized (then_allocate second (allocate first (destroy_buffers old)))
                      (both_rounds first second c refl (made-IsSized c w h fits)))
              ])
    ]
  where
    moved : (b : ShmBuffer) → IsSized (destroy_buffers old) b → IsSized old b
    moved b k = record { idle = k.idle; exact = k.exact; small = k.small }

    every : (bs : List ShmBuffer) → All (IsSized (destroy_buffers old)) bs → All (IsSized old) bs
    every [] k = tt
    every (b ∷ bs) k = (moved b k.0, every bs k.1)

    resized :
        (r : Client × Bool)
        → Filled (destroy_buffers old) r
        → All (IsSized old) r.0.buffers × Counted r
    resized r k = (every r.0.buffers k.0, k.1)
