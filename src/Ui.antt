-- ===== src/Ui.antt =====
-- libfinnui: the client of src/ui/app.cpp, which connects an app to the compositor, and the widgets
-- of src/ui/canvas.cpp.
pub mod State
pub mod Names
pub mod Buffers
pub mod Surface
pub mod Frames
pub mod Pointer
pub mod Keyboard
pub mod Outputs
pub mod Setup
pub mod Events
pub mod Beginning
pub mod Quiet
pub mod Untouched
pub mod Exchange
pub mod Waking
pub mod Life
pub mod Widgets
