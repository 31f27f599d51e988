-- ===== src/Tests/Desktop.antt =====
-- Runs of the shell, with an animation that is over at once.
use finn_os.Base.{refl, Bool, true, false, none, List, [], ◌∷◌, arith}
use finn_os.Text.Raw.{codes}
use finn_os.Session.Client.{descriptor}
use finn_os.Shell.{
  Motion, Panel, RecentApp, Shell, Call, Action, acts, search_button, home_button, hardware_pill,
  frame, launch_button,
}
use finn_os.Shell.Panels.{AtMostOne, acts-AtMostOne}
use finn_os.Shell.Recents.{IsHistory, acts-IsHistory}
use finn_os.FileSize.{Shown, format_size-Shown}
use finn_os.Tests.Requests.{sys}

-- The value is 1 for an open panel, 0 for a closed one: `set`, under reduced motion.
abbrev instant : Motion Bool
instant = record {
  to_open = λ v. true;
  to_closed = λ v. false;
  update = λ v. v;
  running = λ v. false;
  shown = λ v. v;
}

abbrev hidden : Panel Bool
hidden = record { is_open = false; visible = false; motion = false }

abbrev shell : Shell Bool
shell = record {
  client = record { fd = none; closed = [] };
  apps = [];
  recent_apps = [];
  menu = hidden;
  search = record { is_open = true; visible = true; motion = true };
  control_center = hidden;
  active_app = codes "settings";
  error = [];
  session_error = [];
  dark = false;
  error_until = 0;
  next_refresh = 0;
}

abbrev call : Call
call = record {
  system = sys;
  peer = record { socket = descriptor 5; connect_error = none; writes = []; reads = [] };
  now = 90;
  sort = λ apps. apps;
}

abbrev actions : List (Call × Action)
actions =
    (call, home_button)
    ∷ (call, launch_button (codes "ed") (codes "Editor") [])
    ∷ (call, hardware_pill)
    ∷ (call, frame)
    ∷ (call, search_button)
    ∷ []

shell-AtMostOne : AtMostOne shell
shell-AtMostOne = record {
  menu_search = refl;
  menu_control_center = refl;
  search_control_center = refl;
}

acts-AtMostOne_example : AtMostOne (acts instant actions shell)
acts-AtMostOne_example = acts-AtMostOne instant actions shell shell-AtMostOne

abbrev item : RecentApp
item = record { id = codes "ed"; name = codes "Editor"; icon = [] }

nothing-IsHistory : IsHistory []
nothing-IsHistory = record { few = omega arith; distinct = tt }

acts-IsHistory_example : IsHistory (acts instant actions shell).recent_apps
acts-IsHistory_example = acts-IsHistory instant actions shell nothing-IsHistory

format_size-Shown_example : Shown 3000000
format_size-Shown_example = format_size-Shown 3000000
