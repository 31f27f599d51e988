-- ===== src/Session/Protocol/Row.antt =====
-- One line of the listing: written by the broker, taken apart by the client.
use finn_os.Base.{
  ℕ, suc, ◌+◌, ◌≡◌, ◌≢◌, refl, sym, ap, ◌∙◌, Bool, true, false, List, [], ◌∷◌, ◌++◌, append_assoc,
  arith, length, length-append, All-append, if◌then◌else◌, Bool-cases, inl, inr,
}
use finn_os.Text.Raw.{Bytes, codes, Without, equal}
use finn_os.Text.Split.{split, split_some, split_none}
use finn_os.Registry.{App}
use finn_os.Registry.Invariant.{IsEntry}
use finn_os.Session.Broker.{sanitise, app_line}
use finn_os.Session.Client.{SessionApp, read_app}

abbrev flag : Bool → Bytes
flag installed = if installed then codes "1" else codes "0"

-- The line without its line feed.
abbrev pub row : App → Bytes
row app =
    app.id
    ++ (b'|' ∷ (flag app.installed ++ (b'|' ∷ (sanitise app.name ++ (b'|' ∷ sanitise app.icon)))))

-- What the client makes of an app.
abbrev pub view : App → SessionApp
view app = record {
  id = app.id;
  name = sanitise app.name;
  icon = sanitise app.icon;
  installed = app.installed;
}

pub length-sanitise : (s : Bytes) → length (sanitise s) ≡ length s
unfolding sanitise
length-sanitise [] = refl
length-sanitise (c ∷ s) = ap suc (length-sanitise s)

pub sanitise-Without : (s : Bytes) → Without b'|' (sanitise s) × Without b'\n' (sanitise s)
unfolding sanitise
sanitise-Without [] = (tt, tt)
sanitise-Without (c ∷ s) =
    (((λ e. ground arith), (sanitise-Without s).0), ((λ e. ground arith), (sanitise-Without s).1))

pub length-row :
    (app : App) → length (row app) ≡ length app.id + length app.name + length app.icon + 4
length-row app = elim (Bool-cases app.installed) [
  | inl e ↦ rw e (omega (arith, parts))
  | inr e ↦ rw e (omega (arith, parts))
]
  where
    parts :
        (f : Bytes)
        → length f ≡ 1
        → length
            (app.id ++ (b'|' ∷ (f ++ (b'|' ∷ (sanitise app.name ++ (b'|' ∷ sanitise app.icon))))))
          ≡ length app.id + length app.name + length app.icon + 4
    parts f h = omega (
      arith,
      length-append app.id _,
      length-append f _,
      length-append (sanitise app.name) _,
      length-sanitise app.name,
      length-sanitise app.icon,
      h,
    )

pub app_line-row : (app : App) (rest : Bytes) → app_line app ++ rest ≡ row app ++ (b'\n' ∷ rest)
unfolding app_line
app_line-row app rest = simp append_assoc

module _ (app : App) (h : IsEntry app) where
  flag-Without : (c : ℕ) → c ≢ b'0' → c ≢ b'1' → Without c (flag app.installed)
  flag-Without c n m = elim (Bool-cases app.installed) [
    | inl e ↦ rw e ((λ p. m (sym p)), tt)
    | inr e ↦ rw e ((λ p. n (sym p)), tt)
  ]

  pub row-Without : Without b'\n' (row app)
  row-Without = All-append _ app.id _ h.id_field.no_feed (
    (λ e. cc),
    All-append _ (flag app.installed) _ (flag-Without b'\n' (λ e. cc) (λ e. cc)) (
      (λ e. cc),
      All-append _ (sanitise app.name) _ (sanitise-Without app.name).1
          ((λ e. cc), (sanitise-Without app.icon).1),
    ),
  )

  split-row :
      split (row app) b'|'
      ≡ app.id ∷ flag app.installed ∷ sanitise app.name ∷ sanitise app.icon ∷ []
  split-row =
      split_some app.id _ b'|' h.id_field.no_bar
      ∙ ap (◌∷◌ app.id) (
          split_some (flag app.installed) _ b'|' (flag-Without b'|' (λ e. cc) (λ e. cc))
          ∙ ap (◌∷◌ (flag app.installed)) (
              split_some (sanitise app.name) _ b'|' (sanitise-Without app.name).0
              ∙ ap (◌∷◌ (sanitise app.name))
                  (split_none (sanitise app.icon) b'|' (sanitise-Without app.icon).0)))

  flag_lem : (b : Bool) → equal (flag b) (codes "1") ≡ b
  unfolding equal
  flag_lem true = refl
  flag_lem false = refl

  -- The client reads the row back as the app's view.
  pub read_app-row :
      (apps : List SessionApp) → read_app (split (row app) b'|') apps ≡ view app ∷ apps
  read_app-row apps = rw split-row (rw (flag_lem app.installed))
