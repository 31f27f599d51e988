-- ===== src/Lib.antt =====
-- FinnOS: the userland's logic, as functions and theorems about them.
--
-- The program. finn-session (src/session) is a broker: it loads a catalogue of apps, marks the
-- installed ones, and answers one-line requests over a Unix socket: PING, APP.LIST, APP.LAUNCH and
-- QUIT. finn-shell (src/shell) lists and launches apps through its client. finn-comp (src/comp) is
-- the compositor: it keeps the windows and layer surfaces, the keyboard focus, and moves, resizes
-- and maximises windows. The theme and the display are lines of a settings file that finn-shell and
-- the Settings app (apps/settings) write and all read. The apps run on a client of Wayland (src/ui)
-- that draws frames into buffers it shares with the compositor and gathers the input in between.
--
-- Where it is modelled.
--   Base        numbers, Booleans, lists and signed integers over the native numbers.
--   Text        bytes, `trim`, `split`, `std::getline`, and decimal numbers.
--   Registry    src/session/app_registry.cpp: App, AppRegistry::load, find, installed.
--   Wire        write_all and read_line of src/session/main.cpp and src/session/client.cpp.
--   Session     Environment: getenv, paths, posix_spawn. Broker: handle_request and what it calls.
--               Socket: prepare_socket. Server: the loop of run_server. Client: SessionClient.
--               Command: main, client_list, client_launch. Protocol, Launching and Stopping: proofs.
--   Comp        src/comp/server.cpp: State is class Server; Focus, Geometry, Animation and Display
--               are its methods, Events its listeners.
--   Settings    the readers and writers of the settings file in src/shell/main.cpp and
--               apps/settings/main.cpp, prefers_dark of src/comp/server.cpp, and
--               pick_theme of src/ui/app.cpp.
--   Shell       src/shell/main.cpp: the panels, the launches, the apps launched lately.
--   FileSize    format_size of apps/files/main.cpp, and FilesApp its class Files.
--   Ui          src/ui/app.cpp: State is class Client with the input of src/ui/finn/ui.hpp; Names,
--               Buffers, Surface, Frames, Pointer, Keyboard, Outputs and Setup are its methods,
--               Events its listeners and run. Exchange: the buffers that the compositor holds, and
--               what else the moves of the client keep. Waking: the frames that are owed. Life: both
--               from the beginning of a client to its end.
--               Widgets: the controls of src/ui/canvas.cpp.
--   Tests       runs at concrete inputs.
--
-- How. A string is the list of its bytes. The file system is a function from paths to contents. A
-- system call is a parameter or a list of outcomes: `write` and `read` are consumed call by call,
-- with short writes, EINTR, failures and the end of the stream; posix_spawn, access, getenv and
-- strerror are functions of a record. A pointer of the compositor is the number of the object that
-- it points to. Listeners are a function of an event and the state, and a run is a list of events;
-- what wlroots does by itself between them (a surface goes, the keyboard goes) is an event as well.
-- In the client of src/ui a pointer to an object of Wayland is the flag that it is not null, what the
-- app does while it draws is part of the event, and wl_surface_frame and its like return an object.
-- Loops are recursion on the input, so there is no fuel. Past the last outcome a read ends and a
-- write fails.
--
-- Bounds. Lines have at most 4096 bytes, a listing at most 4096 apps, a catalogue line at most six
-- fields, a socket path less than 108 bytes. Coordinates are unbounded integers; the pointer's
-- doubles are in units of 1/256, and the easing is exact where the source rounds doubles. Times of
-- the client are in nanoseconds. The products of a size and a scale wrap as an int does.
--
-- Not modelled. Drawing, sliders, scroll positions, fonts and paths, the calls of wlroots and
-- libwayland that keep no state of the program, the socket's set-up, and scales of the display
-- beyond the text that is written and the test whether they differ.
mod Base
pub mod Text
pub mod Registry
pub mod Wire
pub mod Session
pub mod Comp
pub mod Settings
pub mod Shell
pub mod FileSize
pub mod FilesApp
pub mod Ui
mod Tests
