-- ===== src/Browser.antt =====
-- What the providers use of the browser: web sockets, with their handlers attached or not and open
-- or closing, and the pending timeouts. Identifiers stand for object references and timer ids.
pub mod Sockets
pub mod Storage
use org_log.Prelude.{ℕ, String, Bool, List, [], ◌∷◌, not, ◌==◌, select, if◌then◌else◌}

-- `project_id`: of the closure that its handlers are made in. `handlers`: `onopen`, `onmessage`, `onerror` and `onclose` are set. `closing`: `close()` was called.
pub record Socket : Type 0 where
  pub id : ℕ
  pub project_id : String
  pub url : String
  pub handlers : Bool
  pub closing : Bool

-- A pending `setTimeout(connect, delay)`: the callback's closure holds the project's id.
pub record Timer : Type 0 where
  pub id : ℕ
  pub delay : ℕ
  pub project_id : String

-- Sets the four handlers of a socket to null.
unfoldable pub detach : ℕ → List Socket → List Socket
detach k [] = []
detach k (c ∷ cs) = (if c.id == k then record c { handlers = Bool.false } else c) ∷ detach k cs

-- `ws.close()`; the `close` event comes later.
unfoldable pub close : ℕ → List Socket → List Socket
close k [] = []
close k (c ∷ cs) = (if c.id == k then record c { closing = Bool.true } else c) ∷ close k cs

-- The `close` event is a socket's last: nothing more comes from it.
abbrev pub finish : ℕ → List Socket → List Socket
finish k = select (λ c. not (c.id == k))

-- The sockets whose events reach the program.
abbrev pub listening : List Socket → List Socket
listening = select (λ c. c.handlers)

-- The connections that the program holds open.
abbrev pub held : List Socket → List Socket
held = select (λ c. not c.closing)

abbrev pub clear_timeout : ℕ → List Timer → List Timer
clear_timeout t = select (λ u. not (u.id == t))
