-- ===== src/Comp/Events/Invariant.antt =====
-- No listener of src/comp/server.cpp leaves a pointer to an object that is gone.
use finn_os.Base.{
  ℕ, zero, suc, ◌≡◌, refl, sym, ◌∙◌, Bool, true, false, not, Option, none, some, List, [], ◌∷◌,
  arith, ◌==◌, length, if_both, Bool-cases, Option-cases, inl, inr,
}
use finn_os.Comp.State.{Toplevel, Layer, CursorMode, Surface, window, panel, Server}
use finn_os.Comp.Windows.{
  has, has_layer, update, remove, remove_layer_of, IsAlive, IsAliveLayer, KeepsId, has-update,
  has-remove, has_layer-remove, IsAlive-update,
}
use finn_os.Comp.Focus.{
  drop_focus, points_to, cleared, is_window, activate, set_activated, deactivate, focus,
  focus_layer, release_layer, remove_toplevel, remove_layer, KeySym, escape, f1, other_key,
  next_index, index_of, id_at, handle_keybinding, handle_syms,
}

-- Every pointer of the server is null or points to an object that it holds, and it moves or
-- resizes only while a window is grabbed.
pub record IsSound (s : Server) : Type 0 where
  pub focused_alive : IsAlive s.focused s.toplevels
  pub last_alive : IsAlive s.last_focused s.toplevels
  pub grabbed_alive : IsAlive s.grabbed s.toplevels
  pub layer_alive : IsAliveLayer s.focused_layer s.layers
  pub grab_mode : s.grabbed ≡ none → s.cursor_mode ≡ CursorMode.passthrough

-- A change of the windows in place.
pub update-IsSound :
    (i : ℕ) (f : Toplevel → Toplevel) (s : Server)
    → KeepsId f
    → IsSound s
    → IsSound (record s { toplevels = update i f s.toplevels })
update-IsSound i f s k h = record {
  focused_alive = IsAlive-update s.focused i f s.toplevels k h.focused_alive;
  last_alive = IsAlive-update s.last_focused i f s.toplevels k h.last_alive;
  grabbed_alive = IsAlive-update s.grabbed i f s.toplevels k h.grabbed_alive;
  layer_alive = h.layer_alive;
  grab_mode = h.grab_mode;
}

pub activate-KeepsId : (on : Bool) → KeepsId (activate on)
activate-KeepsId on t = refl

pub deactivate-IsSound : (o : Option Surface) (s : Server) → IsSound s → IsSound (deactivate o s)
unfolding deactivate
deactivate-IsSound none s h = h
deactivate-IsSound (some (window j)) s h = update-IsSound j _ s (activate-KeepsId false) h
deactivate-IsSound (some (panel j)) s h = h

pub has-deactivate :
    (o : Option Surface) (s : Server) (i : ℕ) → has i (deactivate o s).toplevels ≡ has i s.toplevels
unfolding deactivate
has-deactivate none s i = refl
has-deactivate (some (window j)) s i = has-update j i _ s.toplevels (activate-KeepsId false)
has-deactivate (some (panel j)) s i = refl

pub focus-IsSound :
    (o : Option ℕ) (s : Server) → IsAlive o s.toplevels → IsSound s → IsSound (focus o s)
unfolding focus
focus-IsSound none s a h = h
focus-IsSound (some i) s a h = elim (Bool-cases (is_window s.keyboard_focus i)) [
  | inl e ↦ rw (e, focus) h
  | inr e ↦
      let d = deactivate s.keyboard_focus s in
      let t = set_activated i true d in
      let u =
        update-IsSound i (activate true) d (activate-KeepsId true)
          (deactivate-IsSound s.keyboard_focus s h) in
      let there : has i (update i (activate true) d.toplevels) ≡ true =
        has-update i i (activate true) d.toplevels (activate-KeepsId true)
        ∙ has-deactivate s.keyboard_focus s i
        ∙ a in
      rw (e, focus)
        (record {
          focused_alive = there;
          last_alive = there;
          grabbed_alive = u.grabbed_alive;
          layer_alive = tt;
          grab_mode = u.grab_mode;
        })
]

pub drop_focus-IsSound : (o : Option ℕ) (s : Server) → IsSound s → IsSound (drop_focus o s)
unfolding set_activated
drop_focus-IsSound none s h = h
drop_focus-IsSound (some j) s h =
    let u = update-IsSound j (activate false) s (activate-KeepsId false) h in
    record {
      focused_alive = tt;
      last_alive = u.last_alive;
      grabbed_alive = u.grabbed_alive;
      layer_alive = u.layer_alive;
      grab_mode = u.grab_mode;
    }

pub drop_focus_layers : (o : Option ℕ) (s : Server) → (drop_focus o s).layers ≡ s.layers
unfolding set_activated
drop_focus_layers none s = refl
drop_focus_layers (some j) s = refl

pub take_keyboard-IsSound :
    (i : ℕ) (s : Server)
    → has_layer i s.layers ≡ true
    → IsSound s
    → IsSound (record (drop_focus s.focused s) { focused_layer = some i })
take_keyboard-IsSound i s a h =
    let u = drop_focus-IsSound s.focused s h in
    record {
      focused_alive = u.focused_alive;
      last_alive = u.last_alive;
      grabbed_alive = u.grabbed_alive;
      layer_alive = rw (drop_focus_layers s.focused s) a;
      grab_mode = u.grab_mode;
    }

pub with_keyboard-IsSound :
    (o : Option Surface) (s : Server) → IsSound s → IsSound (record s { keyboard_focus = o })
with_keyboard-IsSound o s h = record {
  focused_alive = h.focused_alive;
  last_alive = h.last_alive;
  grabbed_alive = h.grabbed_alive;
  layer_alive = h.layer_alive;
  grab_mode = h.grab_mode;
}

pub focus_layer-IsSound :
    (i : ℕ) (mapped interactive : Bool) (s : Server)
    → has_layer i s.layers ≡ true
    → IsSound s
    → IsSound (focus_layer i mapped interactive s)
unfolding focus_layer
focus_layer-IsSound i false interactive s a h = h
focus_layer-IsSound i true false s a h = h
focus_layer-IsSound i true true s a h = if_both IsSound (not s.has_keyboard) _ _ h (
    take_keyboard-IsSound i (record s { keyboard_focus = some (panel i) }) a
      (with_keyboard-IsSound (some (panel i)) s h))

pub cleared-IsAlive :
    (o : Option ℕ) (i : ℕ) (ts : List Toplevel) → IsAlive o ts → IsAlive (cleared o i) (remove i ts)
cleared-IsAlive none i ts h = tt
cleared-IsAlive (some j) i ts h = elim (Bool-cases (j == i)) [
  | inl e ↦ rw (e, cleared) tt
  | inr e ↦ rw (e, cleared) (ground (arith, has-remove i j ts))
]

pub remove-IsAlive :
    (o : Option ℕ) (i : ℕ) (ts : List Toplevel)
    → points_to o i ≡ false
    → IsAlive o ts
    → IsAlive o (remove i ts)
remove-IsAlive none i ts n h = tt
remove-IsAlive (some j) i ts n h = ground (arith, has-remove i j ts)

pub remove_toplevel-IsSound : (i : ℕ) (s : Server) → IsSound s → IsSound (remove_toplevel i s)
unfolding remove_toplevel
remove_toplevel-IsSound i s h = elim (Bool-cases (points_to s.grabbed i)) [
  | inl e ↦
      rw (e, remove_toplevel)
        (record {
          focused_alive = cleared-IsAlive s.focused i s.toplevels h.focused_alive;
          last_alive = cleared-IsAlive s.last_focused i s.toplevels h.last_alive;
          grabbed_alive = tt;
          layer_alive = h.layer_alive;
          grab_mode = λ p. refl;
        })
  | inr e ↦
      rw (e, remove_toplevel)
        (record {
          focused_alive = cleared-IsAlive s.focused i s.toplevels h.focused_alive;
          last_alive = cleared-IsAlive s.last_focused i s.toplevels h.last_alive;
          grabbed_alive = remove-IsAlive s.grabbed i s.toplevels e h.grabbed_alive;
          layer_alive = h.layer_alive;
          grab_mode = h.grab_mode;
        })
]

pub release_layer-IsSound : (i : ℕ) (s : Server) → IsSound s → IsSound (release_layer i s)
unfolding release_layer
release_layer-IsSound i s h = elim (Bool-cases (points_to s.focused_layer i)) [
  | inl e ↦
      rw (e, release_layer)
        (focus-IsSound s.last_focused (record s { focused_layer = none; keyboard_focus = none })
          h.last_alive
          (record {
            focused_alive = h.focused_alive;
            last_alive = h.last_alive;
            grabbed_alive = h.grabbed_alive;
            layer_alive = tt;
            grab_mode = h.grab_mode;
          }))
  | inr e ↦ rw (e, release_layer) h
]

pub focus_layer_none :
    (o : Option ℕ) (s : Server) → s.focused_layer ≡ none → (focus o s).focused_layer ≡ none
unfolding focus
focus_layer_none none s h = h
focus_layer_none (some i) s h =
    if_both {A = Server} (λ t. t.focused_layer ≡ none) (is_window s.keyboard_focus i) _ _ h refl

pub release_layer_lem : (i : ℕ) (s : Server) → points_to (release_layer i s).focused_layer i ≡ false
unfolding release_layer
release_layer_lem i s = elim (Bool-cases (points_to s.focused_layer i)) [
  | inl e ↦
      rw (e, release_layer)
        (rw (
          focus_layer_none s.last_focused (record s { focused_layer = none; keyboard_focus = none })
            refl))
  | inr e ↦ rw (e, release_layer) e
]

pub remove-IsAliveLayer :
    (o : Option ℕ) (i : ℕ) (ls : List Layer)
    → points_to o i ≡ false
    → IsAliveLayer o ls
    → IsAliveLayer o (remove_layer_of i ls)
remove-IsAliveLayer none i ls n h = tt
remove-IsAliveLayer (some j) i ls n h = ground (arith, has_layer-remove i j ls)

pub remove_layer-IsSound : (i : ℕ) (s : Server) → IsSound s → IsSound (remove_layer i s)
unfolding remove_layer
remove_layer-IsSound i s h =
    let t = release_layer-IsSound i s h in
    record {
      focused_alive = t.focused_alive;
      last_alive = t.last_alive;
      grabbed_alive = t.grabbed_alive;
      layer_alive = remove-IsAliveLayer _ i _ (release_layer_lem i s) t.layer_alive;
      grab_mode = t.grab_mode;
    }

pub id_at-IsAlive : (n : ℕ) (ts : List Toplevel) → IsAlive (id_at n ts) ts
unfolding id_at has
id_at-IsAlive n [] = tt
id_at-IsAlive zero (t ∷ ts) = ground arith
id_at-IsAlive (suc n) (t ∷ ts) = elim (Option-cases (id_at n ts)) [
  | inl e ↦ rw (e, IsAlive) tt
  | inr (i, e) ↦ rw (e, IsAlive) (ground (arith, rw (e, IsAlive) at (id_at-IsAlive n ts)))
]

pub handle_keybinding-IsSound :
    (sym : KeySym) (s : Server) → IsSound s → IsSound (handle_keybinding sym s).0
unfolding handle_keybinding
handle_keybinding-IsSound escape s h = record {
  focused_alive = h.focused_alive;
  last_alive = h.last_alive;
  grabbed_alive = h.grabbed_alive;
  layer_alive = h.layer_alive;
  grab_mode = h.grab_mode;
}
handle_keybinding-IsSound f1 s h =
    focus-IsSound _ s
      (id_at-IsAlive (next_index (index_of s.focused s.toplevels) (length s.toplevels)) s.toplevels)
      h
handle_keybinding-IsSound other_key s h = h

pub handle_syms-IsSound :
    (syms : List KeySym) (s : Server) → IsSound s → IsSound (handle_syms syms s).0
unfolding handle_syms
handle_syms-IsSound [] s h = h
handle_syms-IsSound (sym ∷ syms) s h =
    handle_syms-IsSound syms (handle_keybinding sym s).0 (handle_keybinding-IsSound sym s h)
