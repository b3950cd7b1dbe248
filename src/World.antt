-- ===== src/World.antt =====
-- What the program meets outside itself. Every call that leaves the process is an event of a
-- history; the environment answers it by a function of the history, so a theorem that holds for
-- every environment holds for whatever the servers and the other processes do in between.
mod Events
mod Environment
pub mod Monad
pub use Events.*
pub use Environment.*
unfoldable pub use Monad.*
