-- ===== src/Session/Launching.antt =====
-- What the broker of src/session/main.cpp starts, and for whom.
use mathlib.Core.List.{Memᴰ}
use finn_os.Base.{
  ◌+◌, ◌≡◌, ◌≢◌, ◌⊎◌, refl, true, false, not, ◌&&◌, Option, none, some, List, [], ◌∷◌, ◌++◌, arith,
  All, All-append, append-nil, Bool-cases, Option-cases, inl, inr,
}
use finn_os.Text.Raw.{Bytes, codes, after_prefix, append-after_prefix}
use finn_os.Text.Split.{cut, c_str}
use finn_os.Wire.{read_line}
use finn_os.Registry.{App, AppSource, load, find, launchable}
use finn_os.Session.Environment.{System, Launch, catalogue_path, installed_path, nonempty}
use finn_os.Session.Broker.{
  launch_env, spawn_app, launch_app, launch_found, launch_reply, launch_request, handle_launch,
  handle_request,
}
use finn_os.Session.Server.{
  Connection, Event, connection, signal, poll_interrupted, poll_failed, idle, accept_interrupted,
  accept_failed, Server, started, is_refused, serve, accept, turn, run_loop,
}

-- Why a launch is right: the request names one id, without a space, of an app that the catalogue
-- has, that is installed and native, and whose command can be executed; and the launch is that
-- command alone, in the environment block of the broker.
pub record Authorised (sys : System) (request : Bytes) (launch : Launch) : Type 0 where
  pub id : Bytes
  pub registry : List App
  pub app : App
  pub runtime : Bytes
  pub asked : request ≡ codes "APP.LAUNCH " ++ id
  pub one_id : (id ≢ []) × ((cut b' ' id).1 ≡ none)
  pub loads : load sys.files (catalogue_path sys) (installed_path sys) ≡ some registry
  pub finds : find id registry ≡ some app
  pub is_installed : app.installed ≡ true
  pub is_native : app.source ≡ AppSource.native
  pub has_command : app.command ≢ []
  pub is_executable : sys.executable (c_str app.command) ≡ true
  pub runtime_set : (sys.getenv (codes "XDG_RUNTIME_DIR") ≡ some runtime) × (runtime ≢ [])
  pub what : launch ≡ record {
    program = c_str app.command;
    argv = c_str app.command ∷ [];
    envp = launch_env sys runtime;
  }

-- The same, for an app that was found.
record Startable (sys : System) (app : App) (launch : Launch) : Type 0 where
  runtime : Bytes
  is_installed : app.installed ≡ true
  is_native : app.source ≡ AppSource.native
  has_command : app.command ≢ []
  is_executable : sys.executable (c_str app.command) ≡ true
  runtime_set : (sys.getenv (codes "XDG_RUNTIME_DIR") ≡ some runtime) × (runtime ≢ [])
  what : launch ≡ record {
    program = c_str app.command;
    argv = c_str app.command ∷ [];
    envp = launch_env sys runtime;
  }

nonempty-some : (o : Option Bytes) {s : Bytes} → nonempty o ≡ some s → (o ≡ some s) × (s ≢ [])
nonempty-some none h = (cc, cc)
nonempty-some (some []) h = (cc, cc)
nonempty-some (some (c ∷ cs)) h = (h, λ e. cc)

launch_app-Startable :
    (sys : System) (app : App) {launch : Launch}
    → (launch_app sys app).launched ≡ some launch
    → Startable sys app launch
unfolding launch_app launchable spawn_app
launch_app-Startable sys app {launch} h =
    elim (Option-cases (nonempty (sys.getenv (codes "XDG_RUNTIME_DIR")))) [
      | inl e ↦ absurd (ground arith)
      | inr (runtime, e) ↦ record {
        runtime = runtime;
        is_installed = ground arith;
        is_native = ground arith;
        has_command = ground arith;
        is_executable = ground arith;
        runtime_set = nonempty-some _ e;
        what = ground arith;
      }
    ]

launch_reply-found :
    (sys : System) (id : Bytes) {launch : Launch}
    → (launch_reply sys id).launched ≡ some launch
    → (registry : List App) × (app : App) × (load sys.files
          (catalogue_path sys)
          (installed_path sys)
        ≡ some registry)
      × (find id registry ≡ some app)
      × ((launch_app sys app).launched ≡ some launch)
unfolding launch_reply launch_found
launch_reply-found sys id {launch} h =
    elim (Option-cases (load sys.files (catalogue_path sys) (installed_path sys))) [
      | inl e ↦ absurd (ground arith)
      | inr (registry, e) ↦ elim (Option-cases (find id registry)) [
        | inl f ↦ absurd (ground arith)
        | inr (app, f) ↦ (registry, app, e, f, ground arith)
      ]
    ]

handle_request-asked :
    (sys : System) (request : Bytes) {launch : Launch}
    → (handle_request sys request).launched ≡ some launch
    → (id : Bytes) × (after_prefix (codes "APP.LAUNCH ") request ≡ some id)
      × (id ≢ [])
      × ((cut b' ' id).1 ≡ none)
      × ((launch_reply sys id).launched ≡ some launch)
unfolding handle_request handle_launch launch_request
handle_request-asked sys request {launch} h =
    elim (Option-cases (after_prefix (codes "APP.LAUNCH ") request)) [
      | inl e ↦ absurd (ground arith)
      | inr (id, e) ↦ (id, e, ground arith, ground arith, ground arith)
    ]

-- The broker starts something only for a request "APP.LAUNCH id" with one id of a catalogued,
-- installed, native app that has an executable command, while XDG_RUNTIME_DIR is set; and what
-- it starts is that command with no argument, in the broker's environment block.
pub handle_request-Authorised :
    (sys : System) (request : Bytes) (launch : Launch)
    → (handle_request sys request).launched ≡ some launch
    → Authorised sys request launch
handle_request-Authorised sys request launch h =
    let (id, p, ne, one, l) = handle_request-asked sys request h in
    let (registry, app, e, f, a) = launch_reply-found sys id l in
    let s = launch_app-Startable sys app a in
    record {
      id = id;
      registry = registry;
      app = app;
      runtime = s.runtime;
      asked = append-after_prefix (codes "APP.LAUNCH ") request id p;
      one_id = (ne, one);
      loads = e;
      finds = f;
      is_installed = s.is_installed;
      is_native = s.is_native;
      has_command = s.has_command;
      is_executable = s.is_executable;
      runtime_set = s.runtime_set;
      what = s.what;
    }

-- A launch that some connection among the events asked for, whose peer is not known to be another
-- user, and whose request authorises it.
pub record Requested (events : List Event) (launch : Launch) : Type 0 where
  pub from : Connection
  pub request : Bytes
  pub happened : Memᴰ (connection from) events
  pub same_user : (from.peer ≡ none) ⊎ (from.peer ≡ some from.system.uid)
  pub was_read : (read_line from.reads).0 ≡ some request
  pub authorised : Authorised from.system request launch

is_refused-false :
    (c : Connection) → is_refused c ≡ false → (c.peer ≡ none) ⊎ (c.peer ≡ some c.system.uid)
unfolding is_refused
is_refused-false c h = elim (Option-cases c.peer) [
  | inl e ↦ inl e
  | inr (uid, e) ↦ inr (ground arith)
]

module _ (events : List Event) where
  respond-Requested :
      (c : Connection) (server : Server) (request : Bytes)
      → Memᴰ (connection c) events
      → is_refused c ≡ false
      → (read_line c.reads).0 ≡ some request
      → All (Requested events) server.launches
      → All (Requested events) (serve server c (some request)).launches
  unfolding serve
  respond-Requested c server request m f r h =
      elim (Option-cases (handle_request c.system request).launched) [
        | inl e ↦ rw e (rw append-nil h)
        | inr (launch, e) ↦ rw e (
            All-append _ server.launches (launch ∷ []) h (
              record {
                from = c;
                request = request;
                happened = m;
                same_user = is_refused-false c f;
                was_read = r;
                authorised = handle_request-Authorised c.system request launch e;
              },
              tt,
            ))
      ]

  accept-Requested :
      (c : Connection) (server : Server)
      → Memᴰ (connection c) events
      → All (Requested events) server.launches
      → All (Requested events) (accept server c).launches
  unfolding accept serve
  accept-Requested c server m h = elim (Bool-cases (is_refused c)) [
    | inl e ↦ rw (e, accept) h
    | inr e ↦ elim (Option-cases (read_line c.reads).0) [
      | inl r ↦ rw (e, accept) (rw r h)
      | inr (request, r) ↦
          rw (e, accept)
            (rw r (
              respond-Requested c (record server { accepted = server.accepted + 1 }) request m e r
                h))
    ]
  ]

  turn-Requested :
      (event : Event) (server : Server)
      → Memᴰ event events
      → All (Requested events) server.launches
      → All (Requested events) (turn server event).launches
  unfolding turn
  turn-Requested signal server m h = h
  turn-Requested poll_interrupted server m h = h
  turn-Requested poll_failed server m h = h
  turn-Requested idle server m h = h
  turn-Requested accept_interrupted server m h = h
  turn-Requested accept_failed server m h = h
  turn-Requested (connection c) server m h = accept-Requested c server m h

  run_loop-Requested :
      (more : List Event) (server : Server)
      → ((event : Event) → Memᴰ event more → Memᴰ event events)
      → All (Requested events) server.launches
      → All (Requested events) (run_loop server more).launches
  unfolding run_loop
  run_loop-Requested [] server sub h = h
  run_loop-Requested (event ∷ more) server sub h =
      let rest =
        run_loop-Requested more (turn server event) (λ e m. sub e (Memᴰ.tail m))
          (turn-Requested event server (sub event (Memᴰ.head refl)) h) in
      elim (Bool-cases (server.running && not server.broken)) [
        | inl e ↦ rw (e, run_loop) rest
        | inr e ↦ rw (e, run_loop) h
      ]

-- Over every run of the server, each program started was asked for by a request read from one of
-- the connections, whose peer is not known to be another user, and which authorises that launch.
pub run_loop-launches :
    (events : List Event) → All (Requested events) (run_loop started events).launches
run_loop-launches events = run_loop-Requested events events started (λ e m. m) tt
