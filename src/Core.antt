-- ===== src/Core.antt =====
-- The core of the program (core/src, include/mari/core).
pub mod Errors
pub mod Geometry
pub mod Layers
pub mod Origin
pub mod Tile
pub mod Undo
