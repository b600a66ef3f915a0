-- ===== src/Diagnostic.antt =====
-- src/canopen_studio/diag/interface.py: the replies of ECUs, and a diagnostic session over a
-- backend. The three hooks that a backend implements are parameters, over a state of the backend's
-- own; a hook returns its result, or the exception that it raised, with the state it left. Request
-- bytes are natural numbers and times are in milliseconds; the lock has no counterpart, since a
-- call is one step here.
mod Session
mod Replies
pub mod Laws
mod Examples
unfoldable pub use Session.*
unfoldable pub use Replies.*
