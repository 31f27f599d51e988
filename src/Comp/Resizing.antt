-- ===== src/Comp/Resizing.antt =====
-- The interactive resize of src/comp/server.cpp.
use finn_os.Base.{ℕ, ◌≡◌, ◌⊎◌, refl, ◌∙◌, Bool, true, false, some, arith, Bool-cases, inl, inr}
use finn_os.Base.Int.{ℤ, pos, ◌<ℤ◌, leb_ℤ, ◌+ℤ◌, ◌-ℤ◌, to_int, int_laws}
use finn_os.Comp.State.{Toplevel, Server}
use finn_os.Comp.Windows.{find, find-update}
use finn_os.Comp.Geometry.{drag, resized, horizontal, vertical, process_cursor_resize}

-- What a drag gives: a positive extent, and each end that is not dragged where it was.
record Dragged (near far : Bool) (low high : ℤ) (ends : ℤ × ℤ) : Type 0 where
  ordered : ends.0 <ℤ ends.1
  low_stays : near ≡ false → ends.0 ≡ low
  high_stays : (near ≡ true) ⊎ (far ≡ false) → ends.1 ≡ high

drag-Dragged :
    (near far : Bool) (border low high : ℤ)
    → low <ℤ high
    → Dragged near far low high (drag near far border low high)
unfolding drag
drag-Dragged true far border low high h = elim (Bool-cases (leb_ℤ high border)) [
  | inl e ↦ rw e (record { ordered = omega int_laws; low_stays = λ p. cc; high_stays = λ p. refl })
  | inr e ↦ rw e (record { ordered = ground arith; low_stays = λ p. cc; high_stays = λ p. refl })
]
drag-Dragged false true border low high h = elim (Bool-cases (leb_ℤ border low)) [
  | inl e ↦
      rw e
        (record { ordered = omega int_laws; low_stays = λ p. refl; high_stays = λ p. ground arith })
  | inr e ↦
      rw e
        (record { ordered = ground arith; low_stays = λ p. refl; high_stays = λ p. ground arith })
]
drag-Dragged false false border low high h = record {
  ordered = h;
  low_stays = λ p. refl;
  high_stays = λ p. refl;
}

-- The window's borders: its node and the geometry in it, and the size asked for.
abbrev pub left_of : Toplevel → ℤ
left_of t = t.node_x +ℤ t.geometry.x

abbrev pub right_of : Toplevel → ℤ
right_of t = t.node_x +ℤ t.geometry.x +ℤ t.asked_w

abbrev pub top_of : Toplevel → ℤ
top_of t = t.node_y +ℤ t.geometry.y

abbrev pub bottom_of : Toplevel → ℤ
bottom_of t = t.node_y +ℤ t.geometry.y +ℤ t.asked_h

-- Wherever the pointer goes during a resize that began with a positive size, the size asked for
-- stays positive; the left and top borders stay where they were unless they are dragged, and the
-- right and bottom borders stay unless they, and not the border across, are dragged.
pub process_cursor_resize_lem :
    (i : ℕ) (s : Server) (t : Toplevel)
    → s.grabbed ≡ some i
    → find i s.toplevels ≡ some t
    → pos 0 <ℤ s.grab_gw
    → pos 0 <ℤ s.grab_gh
    → (u : Toplevel) × (find i (process_cursor_resize s).toplevels ≡ some u)
      × ((pos 0 <ℤ u.asked_w) × (pos 0 <ℤ u.asked_h))
      × ((s.resize_edges.left ≡ false → left_of u ≡ s.grab_gx)
          × ((s.resize_edges.left ≡ true) ⊎ (s.resize_edges.right ≡ false)
              → right_of u ≡ s.grab_gx +ℤ s.grab_gw))
      × ((s.resize_edges.top ≡ false → top_of u ≡ s.grab_gy)
          × ((s.resize_edges.top ≡ true) ⊎ (s.resize_edges.bottom ≡ false)
              → bottom_of u ≡ s.grab_gy +ℤ s.grab_gh))
unfolding process_cursor_resize
process_cursor_resize_lem i s t g h w v =
    let a =
      drag-Dragged s.resize_edges.left s.resize_edges.right (to_int (s.cursor_x -ℤ s.grab_x))
        s.grab_gx (s.grab_gx +ℤ s.grab_gw) (omega int_laws) in
    let b =
      drag-Dragged s.resize_edges.top s.resize_edges.bottom (to_int (s.cursor_y -ℤ s.grab_y))
        s.grab_gy (s.grab_gy +ℤ s.grab_gh) (omega int_laws) in
    let f = resized (horizontal s) (vertical s) in
    let ao = a.ordered in
    let bo = b.ordered in
    (
      f t,
      rw (g, process_cursor_resize) (find-update i f s.toplevels t (λ x. refl) h),
      (omega int_laws, omega int_laws),
      (
        (λ e. shift (horizontal s).0 t.geometry.x ∙ a.low_stays e),
        (λ e. extent (horizontal s).0 t.geometry.x (horizontal s).1 ∙ a.high_stays e),
      ),
      (
        (λ e. shift (vertical s).0 t.geometry.y ∙ b.low_stays e),
        (λ e. extent (vertical s).0 t.geometry.y (vertical s).1 ∙ b.high_stays e),
      ),
    )
  where
    shift : (x y : ℤ) → x -ℤ y +ℤ y ≡ x
    shift x y = omega int_laws

    extent : (x y z : ℤ) → x -ℤ y +ℤ y +ℤ (z -ℤ x) ≡ z
    extent x y z = omega int_laws
