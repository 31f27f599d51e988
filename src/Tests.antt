-- ===== src/Tests.antt =====
-- Concrete runs of the model, and the theorems at concrete inputs.
mod Files
mod Requests
mod Windows
mod Saving
mod Desktop
mod Client
mod Controls
mod Folders
