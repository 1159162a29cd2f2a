-- ===== src/EventBus.antt =====
-- runtime/internal/event_bus.go: a replay buffer with live subscribers.
-- A channel is named by the id under which it was registered: the bus makes one channel for each
-- id, in the same critical section. `chans` is the store of channels, which a reader still holds
-- after the bus has forgotten its id. A Go channel operation can block or panic, so the bodies
-- that use channels return an `Outcome`. `System` has the interleavings.
pub mod Channels
pub mod System
pub mod Invariant
pub mod Preservation
pub mod Closing
pub mod Replay
pub mod Publishing
pub mod Blocking
unfoldable pub use Channels.*
