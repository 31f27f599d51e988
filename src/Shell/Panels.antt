-- ===== src/Shell/Panels.antt =====
-- The panels of src/shell/main.cpp over any sequence of actions.
use finn_os.Base.{◌≡◌, ◌⊎◌, refl, Bool, true, false, ◌&&◌, List, [], ◌∷◌, arith, if_both, inl, inr}
use finn_os.Text.Raw.{Bytes}
use finn_os.Session.Client.{Result, ok, err, launch}
use finn_os.Shell.{
  Motion, Panel, Shell, Call, closed, refresh, open_menu, open_search, open_control_center,
  close_all, launch_by_id, advance, dismissed, Action, act, acts, search_button, home_button,
  hardware_pill, refresh_button, escape, frame, tick, on_tick, launch_button, press_outside,
}

-- At most one of the three panels is open.
pub record AtMostOne {A : Type 0} (s : Shell A) : Type 0 where
  pub menu_search : s.menu.is_open && s.search.is_open ≡ false
  pub menu_control_center : s.menu.is_open && s.control_center.is_open ≡ false
  pub search_control_center : s.search.is_open && s.control_center.is_open ≡ false

pub Result-cases :
    {A : Type 0} (r : Result A) → ((x : A) × (r ≡ ok x)) ⊎ ((message : Bytes) × (r ≡ err message))
Result-cases (ok x) = inl (x, refl)
Result-cases (err message) = inr (message, refl)

-- A panel that is open was open before.
abbrev Below : {A : Type 0} → Panel A → Panel A → Type 0
Below p q = p.is_open ≡ true → q.is_open ≡ true

Below-AtMostOne :
    {A : Type 0} (t s : Shell A)
    → Below t.menu s.menu
    → Below t.search s.search
    → Below t.control_center s.control_center
    → AtMostOne s
    → AtMostOne t
Below-AtMostOne t s a b c h = record {
  menu_search = ground (arith, h.menu_search);
  menu_control_center = ground (arith, h.menu_control_center);
  search_control_center = ground (arith, h.search_control_center);
}

module _ {A : Type 0} (motion : Motion A) where
  -- No panel but the opened one gains.
  closed-is_open : (p : Panel A) → (closed motion p).is_open ≡ false
  unfolding closed
  closed-is_open p = ground arith

  advance-is_open : (p : Panel A) → (advance motion p).is_open ≡ p.is_open
  unfolding advance
  advance-is_open p = ground arith

  dismissed-is_open :
      (b : Bool) (p : Panel A) → (dismissed motion b p).is_open ≡ true → p.is_open ≡ true
  unfolding dismissed closed
  dismissed-is_open b p = ground arith

  refresh-panels :
      (call : Call) (s : Shell A)
      → ((refresh motion call s).menu ≡ s.menu)
        × ((refresh motion call s).search ≡ s.search)
        × ((refresh motion call s).control_center ≡ s.control_center)
  unfolding refresh
  refresh-panels call s = ground arith

  closed-Below : (p q : Panel A) → Below (closed motion p) q
  closed-Below p q h = ground (arith, closed-is_open p)

  refresh-AtMostOne : (call : Call) (s : Shell A) → AtMostOne s → AtMostOne (refresh motion call s)
  refresh-AtMostOne call s h =
      let (m, n, k) = refresh-panels call s in
      Below-AtMostOne (refresh motion call s) s (λ e. rw m at e) (λ e. rw n at e) (λ e. rw k at e) h

  open_menu-AtMostOne : (call : Call) (s : Shell A) → AtMostOne (open_menu motion call s)
  unfolding open_menu
  open_menu-AtMostOne call s = record {
    menu_search = ground (arith, closed-is_open (refresh motion call s).search);
    menu_control_center = ground (arith, closed-is_open (refresh motion call s).control_center);
    search_control_center = ground (arith, closed-is_open (refresh motion call s).search);
  }

  open_search-AtMostOne : (call : Call) (s : Shell A) → AtMostOne (open_search motion call s)
  unfolding open_search
  open_search-AtMostOne call s = record {
    menu_search = ground (arith, closed-is_open (refresh motion call s).menu);
    menu_control_center = ground (arith, closed-is_open (refresh motion call s).menu);
    search_control_center = ground (arith, closed-is_open (refresh motion call s).control_center);
  }

  open_control_center-AtMostOne : (s : Shell A) → AtMostOne (open_control_center motion s)
  unfolding open_control_center
  open_control_center-AtMostOne s = record {
    menu_search = ground (arith, closed-is_open s.menu);
    menu_control_center = ground (arith, closed-is_open s.menu);
    search_control_center = ground (arith, closed-is_open s.search);
  }

  close_all-AtMostOne : (s : Shell A) → AtMostOne (close_all motion s)
  unfolding close_all
  close_all-AtMostOne s = record {
    menu_search = ground (arith, closed-is_open s.menu);
    menu_control_center = ground (arith, closed-is_open s.menu);
    search_control_center = ground (arith, closed-is_open s.search);
  }

  launch_by_id-AtMostOne :
      (call : Call) (id name icon : Bytes) (s : Shell A)
      → AtMostOne s
      → AtMostOne (launch_by_id motion call id name icon s)
  unfolding launch_by_id
  launch_by_id-AtMostOne call id name icon s h =
      elim (Result-cases (launch call.system call.peer id s.client).1) [
        | inl (_, e) ↦ rw (e, launch_by_id) (close_all-AtMostOne _)
        | inr (_, e) ↦ rw (e, launch_by_id) (Below-AtMostOne _ s (λ p. p) (λ p. p) (λ p. p) h)
      ]

  on_tick-panels :
      (call : Call) (s : Shell A)
      → ((on_tick motion call s).menu ≡ s.menu)
        × ((on_tick motion call s).search ≡ s.search)
        × ((on_tick motion call s).control_center ≡ s.control_center)
  unfolding on_tick refresh
  on_tick-panels call s = ground arith

  on_tick-AtMostOne : (call : Call) (s : Shell A) → AtMostOne s → AtMostOne (on_tick motion call s)
  on_tick-AtMostOne call s h =
      let (m, n, k) = on_tick-panels call s in
      Below-AtMostOne (on_tick motion call s) s (λ e. rw m at e) (λ e. rw n at e) (λ e. rw k at e) h

  act-AtMostOne :
      (call : Call) (action : Action) (s : Shell A)
      → AtMostOne s
      → AtMostOne (act motion call action s)
  unfolding act
  act-AtMostOne call search_button s h =
      if_both AtMostOne s.search.is_open _ _
        (Below-AtMostOne _ s (λ e. e) (closed-Below s.search s.search) (λ e. e) h)
        (open_search-AtMostOne call s)
  act-AtMostOne call home_button s h =
      if_both AtMostOne s.menu.is_open _ _
        (Below-AtMostOne _ s (closed-Below s.menu s.menu) (λ e. e) (λ e. e) h)
        (open_menu-AtMostOne call s)
  act-AtMostOne call hardware_pill s h =
      if_both AtMostOne s.control_center.is_open _ _
        (Below-AtMostOne _ s (λ e. e) (λ e. e) (closed-Below s.control_center s.control_center) h)
        (open_control_center-AtMostOne s)
  act-AtMostOne call refresh_button s h =
      Below-AtMostOne _ (refresh motion call s)
        (closed-Below (refresh motion call s).menu (refresh motion call s).menu) (λ e. e) (λ e. e)
        (refresh-AtMostOne call s h)
  act-AtMostOne call tick s h = on_tick-AtMostOne call s h
  act-AtMostOne call escape s h = close_all-AtMostOne s
  act-AtMostOne call frame s h =
      Below-AtMostOne _ s (λ e. rw (advance-is_open s.menu) at e)
        (λ e. rw (advance-is_open s.search) at e) (λ e. rw (advance-is_open s.control_center) at e)
        h
  act-AtMostOne call (launch_button id name icon) s h = launch_by_id-AtMostOne call id name icon s h
  act-AtMostOne call (press_outside m n k) s h =
      Below-AtMostOne _ s (dismissed-is_open m s.menu) (dismissed-is_open n s.search)
        (dismissed-is_open k s.control_center) h

-- Whatever the user does, and whatever finn-session answers, at most one of the home menu, the
-- search and the control center is open, when it was so before.
pub acts-AtMostOne :
    {A : Type 0} (motion : Motion A) (actions : List (Call × Action)) (s : Shell A)
    → AtMostOne s
    → AtMostOne (acts motion actions s)
unfolding acts
acts-AtMostOne motion [] s h = h
acts-AtMostOne motion ((call, action) ∷ rest) s h =
    acts-AtMostOne motion rest (act motion call action s) (act-AtMostOne motion call action s h)
