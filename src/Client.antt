-- ===== src/Client.antt =====
-- The client of proxmox.go: its state, the headers, the interceptors, the reading of a response,
-- and `Req` with the helpers over it. Logging is left out.
pub mod Monad
pub mod Ends
pub mod Always
pub mod Response
pub mod Outcome
mod Tests
pub use Monad.*
use go_proxmox.Prelude.{
  ℕ, ◌<◌, Bool, true, false, ◌||◌, Option, none, some, List, [], ◌∷◌, ◌++◌, if◌then◌else◌, ltb,
  ◌==◌,
}
use go_proxmox.Prelude.Text.{Text, codes, is_empty, has_prefix}
use go_proxmox.Prelude.Map.{Map}
use go_proxmox.Errors.{Error, wrapped, Result, ok, err}
use go_proxmox.World.{Request, Session, Event, sent}
