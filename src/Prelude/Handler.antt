-- ===== src/Prelude/Handler.antt =====
-- Request handlers on a shared state: an answer or an error, and the state that is left in either
-- case. A transaction is a handler whose own writes are undone if it throws.
mod Monad
mod Kept
mod Ensured
mod Answered
mod Left
mod Delivering
mod Settling
unfoldable pub use Monad.*
pub use Kept.*
pub use Ensured.*
pub use Answered.*
pub use Left.*
pub use Delivering.*
pub use Settling.*
