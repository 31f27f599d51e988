-- ===== src/Shell/Recents.antt =====
-- The apps launched lately, in src/shell/main.cpp.
use finn_os.Base.{
  ◌≤◌, ◌<◌, ◌≡◌, refl, Bool, true, false, List, [], ◌∷◌, arith, ltb, length, if◌then◌else◌, if_both,
  Bool-cases, inl, inr,
}
use finn_os.Text.Raw.{Bytes, equal}
use finn_os.Session.Client.{SessionApp, launch}
use finn_os.Shell.Panels.{Result-cases}
use finn_os.Shell.{
  RecentApp, recent_limit, without_id, drop_last, push_recent, track, Motion, Shell, Call, refresh,
  open_menu, open_search, open_control_center, close_all, launch_by_id, Action, act, acts,
  search_button, home_button, hardware_pill, refresh_button, escape, frame, tick, on_tick,
  launch_button, press_outside,
}

-- No item has the id.
unfoldable pub has_id : Bytes → List RecentApp → Bool
has_id id [] = false
has_id id (item ∷ items) = let rest = has_id id items in if equal item.id id then true else rest

abbrev pub DistinctIds : List RecentApp → Type 0
DistinctIds [] = Unit
DistinctIds (item ∷ items) = (has_id item.id items ≡ false) × DistinctIds items

without_id-has_id : (id : Bytes) (items : List RecentApp) → has_id id (without_id id items) ≡ false
unfolding without_id has_id
without_id-has_id id [] = refl
without_id-has_id id (item ∷ items) = ground (arith, without_id-has_id id items)

without_id-keeps :
    (id other : Bytes) (items : List RecentApp)
    → has_id other items ≡ false
    → has_id other (without_id id items) ≡ false
unfolding without_id has_id
without_id-keeps id other [] h = refl
without_id-keeps id other (item ∷ items) h = ground (arith, without_id-keeps id other items)

without_id-DistinctIds :
    (id : Bytes) (items : List RecentApp) → DistinctIds items → DistinctIds (without_id id items)
unfolding without_id
without_id-DistinctIds id [] h = tt
without_id-DistinctIds id (item ∷ items) h =
    if_both DistinctIds (equal item.id id) (without_id id items) (item ∷ without_id id items)
      (without_id-DistinctIds id items h.1)
      (without_id-keeps id item.id items h.0, without_id-DistinctIds id items h.1)

length-without_id :
    (id : Bytes) (items : List RecentApp) → length (without_id id items) ≤ length items
unfolding without_id
length-without_id id [] = omega arith
length-without_id id (item ∷ items) = ground (arith, length-without_id id items)

length-drop_last : (x : RecentApp) (xs : List RecentApp) → length (drop_last (x ∷ xs)) ≡ length xs
unfolding drop_last
length-drop_last x [] = refl
length-drop_last x (y ∷ ys) = ground (arith, length-drop_last y ys)

drop_last-has_id :
    (id : Bytes) (items : List RecentApp)
    → has_id id items ≡ false
    → has_id id (drop_last items) ≡ false
unfolding drop_last has_id
drop_last-has_id id [] h = refl
drop_last-has_id id (x ∷ []) h = refl
drop_last-has_id id (x ∷ y ∷ ys) h = ground (arith, drop_last-has_id id (y ∷ ys))

drop_last-DistinctIds : (items : List RecentApp) → DistinctIds items → DistinctIds (drop_last items)
unfolding drop_last
drop_last-DistinctIds [] h = tt
drop_last-DistinctIds (x ∷ []) h = tt
drop_last-DistinctIds (x ∷ y ∷ ys) h =
    (drop_last-has_id x.id (y ∷ ys) h.0, drop_last-DistinctIds (y ∷ ys) h.1)

pushed :
    (item : RecentApp) (items : List RecentApp)
    → DistinctIds items
    → DistinctIds (item ∷ without_id item.id items)
pushed item items h = (without_id-has_id item.id items, without_id-DistinctIds item.id items h)

drop_last_first :
    (x : RecentApp) (xs : List RecentApp)
    → 0 < length xs
    → (rest : List RecentApp) × (drop_last (x ∷ xs) ≡ x ∷ rest)
unfolding drop_last
drop_last_first x [] h = let no : ⊥ = omega arith in elim no [ ]
drop_last_first x (y ∷ ys) h = (drop_last (y ∷ ys), refl)

-- At most eight items, no two with one id.
pub record IsHistory (items : List RecentApp) : Type 0 where
  pub few : length items ≤ recent_limit
  pub distinct : DistinctIds items

-- A launch keeps the history to at most eight items with distinct ids, and puts its item first.
push_recent-IsHistory :
    (item : RecentApp) (items : List RecentApp)
    → IsHistory items
    → IsHistory (push_recent item items)
      × ((rest : List RecentApp) × (push_recent item items ≡ item ∷ rest))
unfolding push_recent
push_recent-IsHistory item items h =
    elim (Bool-cases (ltb recent_limit (length (item ∷ without_id item.id items)))) [
      | inl e ↦ rw e (
        record {
          few = omega (
            arith,
            length-drop_last item (without_id item.id items),
            length-without_id item.id items,
          );
          distinct =
              drop_last-DistinctIds (item ∷ without_id item.id items)
                (pushed item items h.distinct);
        },
        drop_last_first item (without_id item.id items) (grind arith),
      )
      | inr e ↦ rw e (
        record { few = ground arith; distinct = pushed item items h.distinct },
        (without_id item.id items, refl),
      )
    ]

track-IsHistory :
    (id name icon : Bytes) (apps : List SessionApp) (items : List RecentApp)
    → IsHistory items
    → IsHistory (track id name icon apps items)
unfolding track
track-IsHistory id name icon apps items h =
    if_both IsHistory _ _ _ h (push_recent-IsHistory _ items h).0

module _ {A : Type 0} (motion : Motion A) where
  refresh_recents :
      (call : Call) (s : Shell A) → (refresh motion call s).recent_apps ≡ s.recent_apps
  unfolding refresh
  refresh_recents call s = ground arith

  launch_by_id-IsHistory :
      (call : Call) (id name icon : Bytes) (s : Shell A)
      → IsHistory s.recent_apps
      → IsHistory (launch_by_id motion call id name icon s).recent_apps
  unfolding launch_by_id close_all
  launch_by_id-IsHistory call id name icon s h =
      elim (Result-cases (launch call.system call.peer id s.client).1) [
        | inl (_, e) ↦ rw (e, launch_by_id) (track-IsHistory id name icon s.apps s.recent_apps h)
        | inr (_, e) ↦ rw (e, launch_by_id) h
      ]

  on_tick_recents :
      (call : Call) (s : Shell A) → (on_tick motion call s).recent_apps ≡ s.recent_apps
  unfolding on_tick refresh
  on_tick_recents call s = ground arith

  on_tick-IsHistory :
      (call : Call) (s : Shell A)
      → IsHistory s.recent_apps
      → IsHistory (on_tick motion call s).recent_apps
  on_tick-IsHistory call s h = rw (on_tick_recents call s) h

  act-IsHistory :
      (call : Call) (action : Action) (s : Shell A)
      → IsHistory s.recent_apps
      → IsHistory (act motion call action s).recent_apps
  unfolding act open_menu open_search open_control_center close_all
  act-IsHistory call search_button s h =
      if_both {A = Shell A} (λ t. IsHistory t.recent_apps) s.search.is_open _ _ h
        (rw (refresh_recents call s) h)
  act-IsHistory call home_button s h =
      if_both {A = Shell A} (λ t. IsHistory t.recent_apps) s.menu.is_open _ _ h
        (rw (refresh_recents call s) h)
  act-IsHistory call hardware_pill s h =
      if_both {A = Shell A} (λ t. IsHistory t.recent_apps) s.control_center.is_open _ _ h h
  act-IsHistory call refresh_button s h = rw (refresh_recents call s) h
  act-IsHistory call tick s h = on_tick-IsHistory call s h
  act-IsHistory call escape s h = h
  act-IsHistory call frame s h = h
  act-IsHistory call (launch_button id name icon) s h = launch_by_id-IsHistory call id name icon s h
  act-IsHistory call (press_outside m n k) s h = h

-- Over any sequence of actions the apps launched lately stay at most eight, with distinct ids.
pub acts-IsHistory :
    {A : Type 0} (motion : Motion A) (actions : List (Call × Action)) (s : Shell A)
    → IsHistory s.recent_apps
    → IsHistory (acts motion actions s).recent_apps
unfolding acts
acts-IsHistory motion [] s h = h
acts-IsHistory motion ((call, action) ∷ rest) s h =
    acts-IsHistory motion rest (act motion call action s) (act-IsHistory motion call action s h)
