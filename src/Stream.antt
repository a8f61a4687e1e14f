-- ===== src/Stream.antt =====
-- web/src/app/useEventStream.ts: the project's event feed over a streamed response.
pub mod Frames
pub mod Connection
