-- ===== src/Ui/Exchange/Making.antt =====
-- Making and destroying buffers in src/ui/app.cpp, as moves of the exchange.
use finn_os.Base.{
  ℕ, suc, ◌-◌, ◌≡◌, refl, sym, ap, subst, Bool, true, false, not, ◌||◌, [], arith, Bool-cases, inl,
  inr, ap₂,
}
use finn_os.Base.Int.{pos, leb_ℤ, ltb_ℤ}
use finn_os.Ui.State.{Client}
use finn_os.Ui.Buffers.{
  Allocation, allocate, create_buffers, destroy_buffers, buffer_bytes, buffer_limit, then_allocate,
  buffer_width, buffer_height,
}
use finn_os.Ui.Quiet.{Core, core}
use finn_os.Ui.Exchange.Steps.{Moved, Moves, added, adds, clears, Moved-same, Moved-trans, still}

-- The buffers of one size.

pub destroy_buffers-Moved : (c : Client) → Moved c (destroy_buffers c)
unfolding destroy_buffers
destroy_buffers-Moved c = ([], clears still)

suc-sub : (n : ℕ) → suc n - 1 ≡ n
suc-sub n = omega arith

allocate-Moved : (outcome : Allocation) (c : Client) → Moved c (allocate outcome c).0
unfolding allocate
allocate-Moved Allocation.no_memfd c = Moved-same c c refl
allocate-Moved Allocation.no_size c =
    Moved-same c (allocate Allocation.no_size c).0
      (ap {A = ℕ} {B = Core} (λ n. record (core c) { open_fds = n }) (suc-sub c.open_fds))
allocate-Moved Allocation.no_map c =
    Moved-same c (allocate Allocation.no_map c).0
      (ap {A = ℕ} {B = Core} (λ n. record (core c) { open_fds = n }) (suc-sub c.open_fds))
allocate-Moved Allocation.no_pool c = Moved-same c (allocate Allocation.no_pool c).0 (
    ap₂ {A = ℕ} {B = ℕ} {C = Core} (λ n m. record (core c) { open_fds = n; mapped = m })
      (suc-sub c.open_fds) (suc-sub c.mapped))
allocate-Moved Allocation.no_buffer c = Moved-same c (allocate Allocation.no_buffer c).0 (
    ap₂ {A = ℕ} {B = ℕ} {C = Core} (λ n m. record (core c) { open_fds = n; mapped = m })
      (suc-sub c.open_fds) (suc-sub c.mapped))
allocate-Moved Allocation.made c = (
  [],
  subst {A = ℕ} (λ n. Moves (core c) [] (record (added (buffer_bytes c) (core c)) { open_fds = n }))
      (sym (suc-sub c.open_fds)) (adds (buffer_bytes c) still),
)

then_allocate-Moved :
    (c : Client) (second : Allocation) (first : Client × Bool)
    → Moved c first.0
    → Moved c (then_allocate second first).0
then_allocate-Moved c second (t, true) h =
    Moved-trans c t (allocate second t).0 h (allocate-Moved second t)
then_allocate-Moved c second (t, false) h = h

pub create_buffers-Moved :
    (rounds : Allocation × Allocation) (c : Client) → Moved c (create_buffers rounds c).0
unfolding create_buffers
create_buffers-Moved (first, second) old =
    let c = destroy_buffers old in
    let destroys = destroy_buffers-Moved old in
    elim (Bool-cases (leb_ℤ c.width (pos 0) || (leb_ℤ c.height (pos 0) || not c.has_shm))) [
      | inl e ↦ rw e destroys
      | inr e ↦
          rw e
            (elim (Bool-cases (
              ltb_ℤ (pos buffer_limit) (buffer_width c)
              || ltb_ℤ (pos buffer_limit) (buffer_height c))) [
                | inl big ↦ rw big destroys
                | inr fits ↦ rw fits (
                    Moved-trans old c (then_allocate second (allocate first c)).0 destroys
                      (then_allocate-Moved c second (allocate first c) (allocate-Moved first c)))
              ])
    ]
