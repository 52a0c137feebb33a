-- ===== src/Ffmpeg.antt =====
-- internal/infrastructure/ffmpeg at the level of its commands.
pub mod Shell
pub mod Probe
pub mod Arguments
pub mod Playlist
pub mod Quality
pub mod Hls
pub mod Reader
pub mod Separated
pub mod Written
pub mod Calm
pub mod Looped
pub mod Tallied
pub mod Audio
pub mod Separate
pub mod Listed
pub mod Previews
pub mod UsePreviews
pub mod Thumbnails
mod Tests
mod Runs
