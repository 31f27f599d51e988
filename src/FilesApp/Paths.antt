-- ===== src/FilesApp/Paths.antt =====
-- Going into a folder and back, in apps/files/main.cpp.
use finn_os.Base.{
  ℕ, Option, none, some, ◌≡◌, refl, ap, ◌∙◌, Bool, true, false, not, ◌&&◌, ◌||◌, List, [], ◌∷◌,
  ◌++◌, is_empty, ◌==◌, arith, if◌then◌else◌, Bool-cases, inl, inr,
}
use finn_os.Text.Raw.{Bytes, codes, equal, equal_iff}
use finn_os.Settings.{join, ends_in_slash}
use finn_os.FilesApp.{
  Entry, Disk, Browser, fill, refresh, up_to_slash, drop_slashes, parent_path, can_go_back, choose,
  act, go_back, click, nth,
}

unfoldable pub has_slash : Bytes → Bool
has_slash [] = false
has_slash (c ∷ cs) = c == b'/' || has_slash cs

up_to_slash-none : (name : Bytes) → has_slash name ≡ false → up_to_slash name ≡ []
unfolding has_slash up_to_slash
up_to_slash-none [] h = refl
up_to_slash-none (c ∷ cs) h = let rest = up_to_slash-none cs in ground arith

up_to_slash-append :
    (path name : Bytes)
    → has_slash name ≡ false
    → up_to_slash (path ++ (b'/' ∷ name)) ≡ path ++ (b'/' ∷ [])
unfolding up_to_slash
up_to_slash-append [] name h = let rest = up_to_slash-none name h in ground arith
up_to_slash-append (c ∷ []) name h = let rest = up_to_slash-append [] name h in ground arith
up_to_slash-append (c ∷ (d ∷ path)) name h =
    let rest = up_to_slash-append (d ∷ path) name h in ground arith

drop_slashes-append :
    (path : Bytes)
    → is_empty path ≡ false
    → ends_in_slash path ≡ false
    → drop_slashes (path ++ (b'/' ∷ [])) ≡ path
unfolding drop_slashes
drop_slashes-append [] filled plain = ground arith
drop_slashes-append (c ∷ []) filled plain = ground arith
drop_slashes-append (c ∷ (d ∷ path)) filled plain =
    let rest = drop_slashes-append (d ∷ path) refl plain in ground arith

-- The path of a folder below `path` leads back to it.
parent_path-below :
    (path name : Bytes)
    → is_empty path ≡ false
    → ends_in_slash path ≡ false
    → has_slash name ≡ false
    → parent_path (join path name) ≡ path
unfolding parent_path join
parent_path-below path name filled plain h =
    let dir = up_to_slash-append path name h in
    let cut = drop_slashes-append path filled plain in ground arith

parent_path-below_root :
    (name : Bytes) → has_slash name ≡ false → parent_path (join (codes "/") name) ≡ codes "/"
unfolding parent_path join up_to_slash drop_slashes
parent_path-below_root name h = let rest = up_to_slash-none name h in ground arith

-- The root, or a path that does not end in a slash.
abbrev pub is_plain : Bytes → Bool
is_plain path = equal path (codes "/") || (not (is_empty path) && not (ends_in_slash path))

parent_path-join :
    (path name : Bytes)
    → is_plain path ≡ true
    → has_slash name ≡ false
    → parent_path (join path name) ≡ path
parent_path-join path name plain h = elim (Bool-cases (equal path (codes "/"))) [
  | inl e ↦ rw ((equal_iff path (codes "/")).0 e) (parent_path-below_root name h)
  | inr e ↦ parent_path-below path name (ground arith) (ground arith) h
]

-- The path of a folder below another is not the root.
join-not_root :
    (path name : Bytes)
    → is_plain path ≡ true
    → is_empty name ≡ false
    → equal (join path name) (codes "/") ≡ false
unfolding join equal
join-not_root [] name plain filled = ground arith
join-not_root (c ∷ []) [] plain filled = ground arith
join-not_root (c ∷ []) (n ∷ name) plain filled = ground arith
join-not_root (c ∷ (d ∷ path)) name plain filled = ground arith

is_plain-filled : (path : Bytes) → is_plain path ≡ true → is_empty path ≡ false
unfolding equal
is_plain-filled [] h = ground arith
is_plain-filled (c ∷ cs) h = refl

-- A folder is filled anew, whatever was shown before.
fill-fill :
    (now earlier : Option (List Entry)) (path : Bytes) (b : Browser)
    → fill now (record (fill earlier (record b { path = path })) { path = b.path }) ≡ fill now b
unfolding fill
fill-fill none none path b = refl
fill-fill none (some items) path b = refl
fill-fill (some items) none path b = refl
fill-fill (some items) (some others) path b = refl

path-fill : (now : Option (List Entry)) (b : Browser) → (fill now b).path ≡ b.path
unfolding fill
path-fill none b = refl
path-fill (some items) b = refl

can_go_back-below :
    (now : Option (List Entry)) (name : Bytes) (b : Browser)
    → is_plain b.path ≡ true
    → has_slash name ≡ false
    → is_empty name ≡ false
    → can_go_back (fill now (record b { path = join b.path name })) ≡ true
unfolding can_go_back
can_go_back-below now name b plain h filled =
    let kept = path-fill now (record b { path = join b.path name }) in
    let back = parent_path-join b.path name plain h in
    let above = is_plain-filled b.path plain in
    let below = join-not_root b.path name plain filled in rw kept (rw back (ground arith))

went_in :
    (disk : Disk) (n : ℕ) (e : Entry) (b : Browser)
    → nth n b.entries ≡ some e
    → e.directory ≡ true
    → act disk (click n) b ≡ refresh disk (record b { path = join b.path e.name })
unfolding act choose
went_in disk n e b at folder =
    ap (λ o. choose disk o b) at
    ∙ ap {A = Bool} {B = Browser}
        (λ d.
          if d
          then refresh disk (record b { path = join b.path e.name })
          else record b { selected = e.name })
        folder

-- From a folder whose path is the root or does not end in a slash, a click on a folder in it, whose
-- name is not empty and has no slash, and then the back button show it again, as its contents are
-- then, with nothing selected.
pub back-click :
    (disk : Disk) (n : ℕ) (e : Entry) (b : Browser)
    → nth n b.entries ≡ some e
    → e.directory ≡ true
    → is_plain b.path ≡ true
    → has_slash e.name ≡ false
    → is_empty e.name ≡ false
    → act disk go_back (act disk (click n) b) ≡ refresh disk b
unfolding act refresh
back-click disk n e b at folder plain h filled =
    let below = record b { path = join b.path e.name } in
    let inside = fill (disk.list below.path) below in
    let went : act disk (click n) b ≡ inside = went_in disk n e b at folder in
    let back : (record inside { path = parent_path inside.path })
        ≡ (record inside { path = b.path }) =
      ap {A = Bytes} {B = Browser} (λ p. record inside { path = p })
        (ap parent_path (path-fill (disk.list below.path) below)
          ∙ parent_path-join b.path e.name plain h) in
    ap (act disk go_back) went
    ∙ (ap {A = Bool} {B = Browser}
          (λ go.
            if go then refresh disk (record inside { path = parent_path inside.path }) else inside)
          (can_go_back-below (disk.list below.path) e.name b plain h filled)
        ∙ (ap (refresh disk) back
            ∙ fill-fill (disk.list b.path) (disk.list below.path) below.path b))
