-- ===== src/Drain.antt =====
-- Shutting a server down: `shutdown`, `stop` and the drain helpers of
-- src/adapters/http/a2a-server.ts, with what begins and ends requests. A waiter is a pending promise
-- of `_waitForDrain`; the one of the first shutdown stops the server when it is resolved.
pub mod Stopped
mod Tests
use jabr.Base.{
  ℕ, zero, suc, Bool, true, false, not, ◌&&◌, ◌||◌, List, [], ◌∷◌, ◌++◌, if◌then◌else◌, any, ◌==◌,
}
use jabr.Wire.{ℤ, pos, negsuc}

pub record Waiter : Type 0 where
  pub id : ℕ
  pub stops : Bool

-- `serving` says that `server` is not null.
pub record A2aServer : Type 0 where
  pub inflight_sync : ℤ
  pub inflight_stream : ℤ
  pub shutting_down : Bool
  pub drain_waiters : List Waiter
  pub resolved : List ℕ
  pub serving : Bool

abbrev pub new_server : A2aServer
new_server = record {
  inflight_sync = pos 0;
  inflight_stream = pos 0;
  shutting_down = false;
  drain_waiters = [];
  resolved = [];
  serving = true;
}

abbrev pub increased : ℤ → ℤ
increased (pos n) = pos (suc n)
increased (negsuc zero) = pos 0
increased (negsuc (suc n)) = negsuc n

abbrev pub decreased : ℤ → ℤ
decreased (pos zero) = negsuc 0
decreased (pos (suc n)) = pos n
decreased (negsuc n) = negsuc (suc n)

-- `n <= 0`
abbrev pub is_none_left : ℤ → Bool
is_none_left (pos zero) = true
is_none_left (pos (suc n)) = false
is_none_left (negsuc n) = true

abbrev pub is_idle : A2aServer → Bool
is_idle s = is_none_left s.inflight_sync && is_none_left s.inflight_stream

-- What waits for the promise goes on; to resolve it again changes nothing more.
abbrev pub settle : Waiter → A2aServer → A2aServer
settle w s = record s { resolved = s.resolved ++ w.id ∷ []; serving = s.serving && not w.stops }

abbrev pub settle_all : List Waiter → A2aServer → A2aServer
settle_all [] s = s
settle_all (w ∷ rest) s = settle_all rest (settle w s)

unfoldable pub resolve_drain_waiters : A2aServer → A2aServer
resolve_drain_waiters s =
    if is_idle s then settle_all s.drain_waiters (record s { drain_waiters = [] }) else s

unfoldable pub wait_for_drain : Waiter → A2aServer → A2aServer
wait_for_drain w s =
    if is_idle s then settle w s else record s { drain_waiters = s.drain_waiters ++ w ∷ [] }

unfoldable pub shutdown : ℕ → A2aServer → A2aServer
shutdown id s =
    if s.shutting_down
    then wait_for_drain (record { id = id; stops = false }) s
    else wait_for_drain (record { id = id; stops = true }) (record s { shutting_down = true })

-- The timer looks for the promise among the callbacks that wrap it, and does not find it: the waiter
-- stays in the list.
unfoldable pub time_out : Waiter → A2aServer → A2aServer
time_out w s = settle w s

unfoldable pub stop : A2aServer → A2aServer
stop s = record s {
  shutting_down = true;
  inflight_sync = pos 0;
  inflight_stream = pos 0;
  serving = false;
}

-- A request that the server takes, and one that has its answer.
unfoldable pub begin_sync : A2aServer → A2aServer
begin_sync s = if s.shutting_down then s else record s { inflight_sync = increased s.inflight_sync }

unfoldable pub end_sync : A2aServer → A2aServer
end_sync s = resolve_drain_waiters (record s { inflight_sync = decreased s.inflight_sync })

unfoldable pub end_stream : A2aServer → A2aServer
end_stream s = resolve_drain_waiters (record s { inflight_stream = decreased s.inflight_stream })

-- While the server shuts down, the stream is counted and ended at once.
unfoldable pub begin_stream : A2aServer → A2aServer
begin_stream s =
    let counted : A2aServer = record s { inflight_stream = increased s.inflight_stream } in
    if s.shutting_down then end_stream counted else counted
