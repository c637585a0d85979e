-- ===== src/Collab.antt =====
-- app/modules/collab: the rooms of one worker, the hub that delivers to them.
pub mod Rooms
pub mod Hub
pub mod Socket
