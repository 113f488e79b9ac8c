-- ===== src/ProbeDefense.antt =====
-- internal/probedefense/guard.go, auto_ban.go, manual_ban.go and exempt.go: which addresses may
-- connect to the tunnel, the record of rejections, and bans. The guard has its store, whose
-- statements succeed. A call is one step, with what CheckAccept starts beside it run at once.
pub mod Tables
pub mod Guard
pub mod Bans
pub mod FrameLength
pub mod Exempt
pub mod Counting
pub mod AutoBan
pub mod ManualBan
