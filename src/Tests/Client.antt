-- ===== src/Tests/Client.antt =====
-- Runs of the client of src/ui/app.cpp on a small window.
use finn_os.Base.{◌⊎◌, All, arith, ◌≡◌, refl, true, false, List, [], ◌∷◌}
use finn_os.Base.Int.{pos}
use finn_os.Text.Raw.{codes}
use finn_os.Ui.Names.{is_alnum, is_upper, to_lower, hyphenate, drop_dashes, lowercase_hyphenated}
use finn_os.Ui.Names.Words.{id_of, words_of, cut_words, lowercase_hyphenated-words_of}
use finn_os.Ui.Buffers.{Allocation, create_buffers}
use finn_os.Ui.Buffers.Sizes.{IsSized, Counted, create_buffers_lem}
use finn_os.Ui.State.{ShmBuffer, Client}
use finn_os.Ui.Buffers.{Allocation}
use finn_os.Ui.Frames.{Drawing, frame_done}
use finn_os.Ui.Outputs.{Global, registry_global, announce}
use finn_os.Ui.Setup.{
  new_client, Display, init_xdg, start, connect_display, create_surface, create_toplevel,
}
use finn_os.Ui.Events.{Event, step, Turn, loop, run}
use finn_os.Ui.Beginning.{Begins, begins_xdg}
use finn_os.Ui.Quiet.{core}
use finn_os.Ui.Exchange.{
  begun, handled, given_by, fair, taken_in, step-IsFair, IsTidy, IsReleased, IsClosing,
}
use finn_os.Ui.Waking.{IsAwake}
use finn_os.Ui.Waking.Shown.{IsShown, IsShowing, IsHeld, IsKept, frame_done_lem}
use finn_os.Ui.Life.{life-IsTidy, life-IsReleased, life-IsClosing, life-IsAwake}

-- `lowercase_hyphenated` at a title.
my_notes : lowercase_hyphenated (codes "-My  Notes_2!") ≡ codes "my-notes-2"
unfolding lowercase_hyphenated hyphenate drop_dashes is_alnum is_upper to_lower
my_notes = refl

lowercase_hyphenated-words_of_example :
    lowercase_hyphenated (codes "-My  Notes_2!") ≡ id_of (words_of (codes "-My  Notes_2!"))
lowercase_hyphenated-words_of_example = lowercase_hyphenated-words_of (codes "-My  Notes_2!")

my_words : words_of (codes "-My  Notes_2!") ≡ codes "my" ∷ codes "notes" ∷ codes "2" ∷ []
unfolding words_of cut_words is_alnum is_upper to_lower
my_words = refl

-- An app that draws without a call.
abbrev plain : Drawing
plain = record { calls = []; animating = false; controls = []; picked_dark = false }

abbrev two_buffers : Allocation × Allocation
two_buffers = (Allocation.made, Allocation.made)

abbrev display : Display
display = record {
  reached = true;
  globals = Global.compositor ∷ Global.shm ∷ Global.wm_base ∷ Global.seat ∷ Global.output 4 ∷ [];
  roundtrip = true;
  surface = true;
  picked_dark = false;
}

-- A window of 300 by 200 that has reached its compositor.
abbrev window : Client
window = init_xdg display (pos 300) (pos 200) (codes "Notes") []

abbrev window_begins : Begins window
window_begins = begins_xdg display (pos 300) (pos 200) (codes "Notes") []

abbrev configure : Event
configure = Event.surface_configure 7 two_buffers plain

abbrev opening : List Event
opening =
    configure
    ∷ Event.motion (pos 512) (pos 512)
    ∷ Event.frame plain
    ∷ Event.release 0
    ∷ Event.close
    ∷ []

-- The session after the first frame: the compositor holds what was handed over.
abbrev first_frame : Client
first_frame = step configure window

step-IsFair_example :
    fair
      (given_by first_frame (step (Event.frame plain) first_frame))
      (taken_in (given_by window first_frame) [])
    ≡ true
step-IsFair_example =
    step-IsFair (Event.frame plain) (handled configure (begun window window_begins) refl)

abbrev turns : List Turn
turns = Turn.dispatched true opening ∷ Turn.idle true false [] ∷ Turn.hung_up ∷ []

life-IsTidy_example : IsTidy (core (loop turns window))
life-IsTidy_example = life-IsTidy turns window_begins

life-IsReleased_example : IsReleased (run turns window).0
unfolding init_xdg start connect_display create_surface create_toplevel announce registry_global
life-IsReleased_example = life-IsReleased turns window_begins refl

life-IsClosing_example : IsClosing (core (loop turns window))
life-IsClosing_example = life-IsClosing turns window_begins

life-IsAwake_example : IsAwake (loop turns window)
life-IsAwake_example = life-IsAwake turns window_begins

-- A window with one busy and one free buffer.
abbrev spare : ShmBuffer
spare = record { id = 1; bytes = 240000; busy = false }

abbrev shown_client : Client
shown_client = record new_client {
  has_compositor = true;
  has_shm = true;
  has_surface = true;
  has_toplevel = true;
  configured = true;
  frame_callback = true;
  width = pos 300;
  height = pos 200;
  buffers = record { id = 0; bytes = 240000; busy = true } ∷ spare ∷ [];
  next_buffer = 2;
  mapped = 2;
}

frame_done_lem_example :
    (IsShowing shown_client × IsShown shown_client (frame_done plain shown_client))
    ⊎ (IsHeld shown_client × IsKept shown_client (frame_done plain shown_client))
frame_done_lem_example = frame_done_lem plain shown_client

create_buffers_lem_example :
    All
      (IsSized shown_client)
      (create_buffers (Allocation.made, Allocation.no_map) shown_client).0.buffers
    × Counted (create_buffers (Allocation.made, Allocation.no_map) shown_client)
create_buffers_lem_example =
    create_buffers_lem (Allocation.made, Allocation.no_map) shown_client (omega arith) (omega arith)
