-- ===== src/Shell.antt =====
-- The state of `Shell` in src/shell/main.cpp: its panels, the apps and those launched lately.
-- The animations (src/ui/animation.hpp, which works on doubles) stand behind an interface.
pub mod Panels
pub mod Recents
use finn_os.Base.{
  ℕ, ◌+◌, ◌≡◌, Bool, true, false, not, ◌&&◌, ◌||◌, Option, none, some, List, [], ◌∷◌, ◌++◌, map,
  ltb, length, is_empty, if◌then◌else◌,
}
use finn_os.Text.Raw.{Bytes, codes, equal}
use finn_os.Session.Environment.{System}
use finn_os.Settings.{read_dark_setting}
use finn_os.Session.Client.{SessionApp, SessionClient, Peer, Result, ok, err, list, launch}

-- `Animation`: `to(1.0, kMotionStandard)`, `to(0.0, kMotionFast)`, `update(dt)`, `running()` and
-- `value > 0.001`.
pub record Motion (A : Type 0) : Type 0 where
  pub to_open : A → A
  pub to_closed : A → A
  pub update : A → A
  pub running : A → Bool
  pub shown : A → Bool

-- `menu_open_`, `menu_visible_` and `menu_anim_`, and so for the other two panels.
pub record Panel (A : Type 0) : Type 0 where
  pub is_open : Bool
  pub visible : Bool
  pub motion : A

pub record RecentApp : Type 0 where
  pub id : Bytes
  pub name : Bytes
  pub icon : Bytes

pub record Shell (A : Type 0) : Type 0 where
  pub client : SessionClient
  pub apps : List SessionApp
  pub recent_apps : List RecentApp
  pub menu : Panel A
  pub search : Panel A
  pub control_center : Panel A
  pub active_app : Bytes
  pub error : Bytes
  pub session_error : Bytes
  pub dark : Bool
  pub error_until : ℕ  -- milliseconds of the steady clock
  pub next_refresh : ℕ

-- What a call meets: the system and finn-session's answers, the time, and `std::sort` on the apps.
pub record Call : Type 0 where
  pub system : System
  pub peer : Peer
  pub now : ℕ
  pub sort : List SessionApp → List SessionApp

abbrev pub recent_limit : ℕ
recent_limit = 8

-- The `remove_if` and `erase` of the item with the id.
unfoldable pub without_id : Bytes → List RecentApp → List RecentApp
without_id id [] = []
without_id id (item ∷ items) =
    let rest = without_id id items in if equal item.id id then rest else item ∷ rest

-- `pop_back`.
unfoldable pub drop_last : {A : Type 0} → List A → List A
drop_last [] = []
drop_last (x ∷ []) = []
drop_last (x ∷ y ∷ ys) = x ∷ drop_last (y ∷ ys)

-- The item comes first, and the last one goes when there are more than eight.
unfoldable pub push_recent : RecentApp → List RecentApp → List RecentApp
unfolding without_id
push_recent item items =
    let pushed = item ∷ without_id item.id items in
    if ltb recent_limit (length pushed) then drop_last pushed else pushed

-- The name and icon of the first app with the id, when no name was given.
unfoldable pub named : Bytes → Bytes → Bytes → List SessionApp → Bytes × Bytes
named id name icon [] = (name, icon)
named id name icon (app ∷ apps) =
    let rest = named id name icon apps in if equal app.id id then (app.name, app.icon) else rest

unfoldable pub track : Bytes → Bytes → Bytes → List SessionApp → List RecentApp → List RecentApp
unfolding named push_recent
track id name icon apps items =
    let (app_name, app_icon) = if is_empty name then named id name icon apps else (name, icon) in
    if is_empty id || is_empty app_name
    then items
    else push_recent (record { id = id; name = app_name; icon = app_icon }) items

module _ {A : Type 0} (motion : Motion A) where
  -- `open_menu`, `close_menu` and so on, for their own panel.
  unfoldable pub opened : Panel A → Panel A
  opened p = record { is_open = true; visible = true; motion = motion.to_open p.motion }

  unfoldable pub closed : Panel A → Panel A
  closed p =
      if not p.is_open && not (motion.running p.motion)
      then record p { visible = false }
      else record p { is_open = false; motion = motion.to_closed p.motion }

  unfoldable pub refresh : Call → Shell A → Shell A
  refresh call s =
      let (client, result) = list call.system call.peer s.client in
      elim result [
        | ok apps ↦ record s { client = client; apps = call.sort apps; session_error = [] }
        | err message ↦ record s { client = client; apps = []; session_error = message }
      ]

  unfoldable pub open_menu : Call → Shell A → Shell A
  unfolding refresh opened closed
  open_menu call s =
      let t = refresh call s in
      record t {
        menu = opened t.menu;
        search = closed t.search;
        control_center = closed t.control_center;
      }

  unfoldable pub open_search : Call → Shell A → Shell A
  unfolding refresh opened closed
  open_search call s =
      let t = refresh call s in
      record t {
        menu = closed t.menu;
        search = opened t.search;
        control_center = closed t.control_center;
      }

  unfoldable pub open_control_center : Shell A → Shell A
  unfolding opened closed
  open_control_center s = record s {
    menu = closed s.menu;
    search = closed s.search;
    control_center = opened s.control_center;
  }

  unfoldable pub close_all : Shell A → Shell A
  unfolding closed
  close_all s = record s {
    menu = closed s.menu;
    search = closed s.search;
    control_center = closed s.control_center;
  }

  unfoldable pub launch_by_id : Call → Bytes → Bytes → Bytes → Shell A → Shell A
  unfolding close_all track
  launch_by_id call id name icon s =
      let (client, result) = launch call.system call.peer id s.client in
      elim result [
        | err message ↦ record s {
          client = client;
          active_app = id;
          error = message;
          error_until = call.now + 4000;
        }
        | ok _ ↦ close_all (record s {
          client = client;
          active_app = id;
          error = [];
          recent_apps = track id name icon s.apps s.recent_apps;
        })
      ]

  -- `on_tick`: old errors go, and after an error of the session the apps are read again.
  unfoldable pub on_tick : Call → Shell A → Shell A
  unfolding refresh
  on_tick call s =
      let t =
        if not (is_empty s.error) && ltb s.error_until call.now
        then record s { error = [] }
        else s in
      let u =
        if not (is_empty t.session_error) && ltb t.next_refresh call.now
        then refresh call (record t { next_refresh = call.now + 2000 })
        else t in
      record u { dark = read_dark_setting call.system.files call.system.getenv }

  -- One turn of a panel's animation in `draw`.
  unfoldable pub advance : Panel A → Panel A
  advance p =
      if motion.running p.motion
      then record p {
        motion = motion.update p.motion;
        visible = p.is_open || motion.shown (motion.update p.motion);
      }
      else record p { visible = p.is_open || motion.shown p.motion }

  -- A panel that is open is closed by a press outside it.
  unfoldable pub dismissed : Bool → Panel A → Panel A
  unfolding closed
  dismissed outside p = if p.is_open && outside then closed p else p

-- What the user does: a button of the dock, a launch by its id, name and icon, the button that
-- reads the apps again, escape, a frame, the timer of a second, and a press outside of the menu, of the search or of the
-- control center.
pub data Action : Type 0 where
  search_button home_button hardware_pill refresh_button escape frame tick : Action
  launch_button : Bytes → Bytes → Bytes → Action
  press_outside : Bool → Bool → Bool → Action

module _ {A : Type 0} (motion : Motion A) where
  unfoldable pub act : Call → Action → Shell A → Shell A
  act call search_button s =
      if s.search.is_open
      then record s { search = closed motion s.search }
      else open_search motion call s
  act call home_button s =
      if s.menu.is_open then record s { menu = closed motion s.menu } else open_menu motion call s
  act call hardware_pill s =
      if s.control_center.is_open
      then record s { control_center = closed motion s.control_center }
      else open_control_center motion s
  act call refresh_button s =
      let t = refresh motion call s in record t { menu = closed motion t.menu }
  act call tick s = on_tick motion call s
  act call escape s = close_all motion s
  act call frame s = record s {
    menu = advance motion s.menu;
    search = advance motion s.search;
    control_center = advance motion s.control_center;
  }
  act call (launch_button id name icon) s = launch_by_id motion call id name icon s
  act call (press_outside menu search control_center) s = record s {
    menu = dismissed motion menu s.menu;
    search = dismissed motion search s.search;
    control_center = dismissed motion control_center s.control_center;
  }

  unfoldable pub acts : List (Call × Action) → Shell A → Shell A
  unfolding act
  acts [] s = s
  acts ((call, action) ∷ rest) s = acts rest (act call action s)
