-- ===== src/Comp.antt =====
-- finn-comp, the compositor: src/comp/server.{hpp,cpp}.
pub mod State
pub mod Windows
pub mod Focus
pub mod Geometry
pub mod Display
pub mod Animation
pub mod Events
pub mod Placement
pub mod Resizing
pub mod Keyboard
pub mod Cycling
pub mod Opening
