-- ===== src/Examples.antt =====
-- The theorems at concrete inputs.
mod Channels
mod Journals
mod Publishers
mod Frames
mod Undos
mod Buses
mod Hashes
mod LayerTrees
mod Handshakes
mod Archives
mod Prooflogs
mod Recorders
mod Canvases
