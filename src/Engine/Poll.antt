-- ===== src/Engine/Poll.antt =====
-- One poll of gamecollect/engine.py: what _fetch_poll_snapshots keeps while it walks the slate, and
-- what it makes of one board (Board), of the matches that left the slate (Vanished), and of the
-- whole slate (Slate). The provider is a parameter; its fetch_match_detail is a read, as its
-- contract says, so within one poll it is a function of the match id.
pub mod State
pub mod Board
pub mod Vanished
pub mod Restart
pub mod Slate
pub mod Once
mod Tests
pub mod Turn
pub mod Budget
pub mod Kept
pub mod Transit
pub mod Settled
pub mod Elsewhere
