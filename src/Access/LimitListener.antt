-- ===== src/Access/LimitListener.antt =====
-- limit_listener.go: connectionLimitListener. The permits are a channel of a fixed capacity, so
-- sending on it waits while it is full: such an Accept has no step. Goroutines interleave, so a
-- state lists the Accept calls that hold a permit and wait for a connection, and the connections
-- that are not closed; `once` of a connection is its releaseOnce.
mod Examples
pub mod Permits
use emby_panel.Prelude.{
  ℕ, ◌+◌, ◌-◌, ◌<◌, ◌≡◌, Bool, true, false, List, [], ◌∷◌, ◌++◌, if◌then◌else◌,
}

pub record Connection : Type 0 where
  pub open_below : Bool  -- the Conn below
  pub once : Bool  -- releaseOnce has not run

pub record Listener : Type 0 where
  pub capacity : ℕ
  pub permits : ℕ
  pub accepting : ℕ  -- Accept calls between their permit and their connection
  pub connections : List Connection
  pub done : Bool

-- limitListener; it panics for a limit that is not positive.
pub limit_listener : ℕ → Listener
limit_listener max_connections = record {
  capacity = max_connections;
  permits = 0;
  accepting = 0;
  connections = [];
  done = false;
}

-- Accept takes a permit.
pub take_permit : Listener → Listener
take_permit l = record l { permits = l.permits + 1; accepting = l.accepting + 1 }

-- The listener below failed: the permit is given back.
pub accept_failed : Listener → Listener
accept_failed l = record l { permits = l.permits - 1; accepting = l.accepting - 1 }

pub accept_connection : Listener → Listener
accept_connection l = record l {
  accepting = l.accepting - 1;
  connections = record { open_below = true; once = true } ∷ l.connections;
}

-- Close of a connection, with its place in the list: the Conn below is closed, and the permit is
-- given back once.
pub close_connection : List Connection → Connection → List Connection → Listener → Listener
close_connection before c after l = record l {
  permits = if c.once then l.permits - 1 else l.permits;
  connections = before ++ record { open_below = false; once = false } ∷ after;
}

-- Close of the listener.
pub close : Listener → Listener
close l = record l { done = true }

-- One move of a goroutine; the channel send of Accept needs room, its other branch needs `done`.
pub data Step (l : Listener) (m : Listener) : Type 0 where
  takes : l.permits < l.capacity → m ≡ take_permit l → Step l m
  gives_up : l.done ≡ true → m ≡ l → Step l m
  fails : 0 < l.accepting → m ≡ accept_failed l → Step l m
  accepts : 0 < l.accepting → m ≡ accept_connection l → Step l m
  closes_connection :
      (before : List Connection) (c : Connection) (after : List Connection)
      → l.connections ≡ before ++ c ∷ after
      → m ≡ close_connection before c after l
      → Step l m
  closes : m ≡ close l → Step l m

pub data Reach (l : Listener) : Listener → Type 0 where
  here : Reach l l
  next : {m n : Listener} → Reach l m → Step m n → Reach l n
