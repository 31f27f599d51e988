-- ===== src/Ui/Exchange.antt =====
-- How the client of src/ui/app.cpp exchanges its buffers with the compositor, as a step relation on
-- the core of its state.
mod Steps
mod Drawing
mod Making
mod Work
mod Safety
mod Holding
mod Resources
mod Closing
pub use Steps.{Moves, Moves-in_draw, Moved}
pub use Drawing.{core-draw_into}
pub use Making.{create_buffers-Moved}
pub use Work.*
pub use Safety.*
pub use Holding.*
pub use Resources.{IsTidy, loop-IsTidy, IsReleased, run-IsReleased}
pub use Closing.*
