-- ===== src/Tests.antt =====
-- Tests on a small board.
mod Fixture
mod Board
mod Sessions
mod Server
mod Invites
mod Snapshots
mod Shell
mod Admin
mod Tools
mod Guests
mod Figures
mod Bucket
mod Pages
mod Paging
