-- ===== src/Shutdown.antt =====
-- Graceful shutdown, of authzoo-server/src/shutdown.rs. The future that `drain` returns is polled by
-- tokio: a `Poll` holds the time and what the futures that `drain` awaits answer in that poll. Times
-- are in milliseconds. Waiting for an operating system's signal is the answer `signal`.
pub mod Signals
pub mod Liveness
pub mod Outcomes
use authzoo.Common.{
  ℕ, ◌+◌, Bool, true, false, if◌then◌else◌, Option, none, some, List, [], ◌∷◌, Result, ok, ◌>>◌,
}

abbrev pub grace_period : ℕ
grace_period = 25000

abbrev pub IoResult : Type 0 → Type 0
IoResult E = Result E (Unit {0})

pub record Poll (E : Type 0) : Type 0 where
  pub now : ℕ
  -- `select!` polls its branches from a random one on.
  pub server_first : Bool
  pub server : Option (IoResult E)
  pub signal : Bool
  -- What the server answers to `timeout`, after `begin_shutdown`.
  pub draining_server : Option (IoResult E)
  -- Whether a sleep until that time is over.
  pub is_over : ℕ → Bool

pub data Selected (E : Type 0) : Type 0 where
  returned : IoResult E → Selected E
  signalled : Selected E
  waiting : Selected E

abbrev pub poll_server : {E : Type 0} → Option (IoResult E) → Selected E → Selected E
poll_server (some result) other = returned result
poll_server none other = other

abbrev pub poll_signal : {E : Type 0} → Bool → Selected E → Selected E
poll_signal true other = signalled
poll_signal false other = other

-- The `select!` of `drain`.
unfoldable pub select : {E : Type 0} → Poll E → Selected E
select p =
    if p.server_first
    then poll_server p.server (poll_signal p.signal waiting)
    else poll_signal p.signal (poll_server p.server waiting)

-- Where `drain` is: in its `select!`, in its `timeout` with a deadline, or returned.
pub data Phase (E : Type 0) : Type 0 where
  serving : Phase E
  draining : ℕ → Phase E
  finished : IoResult E → Phase E

-- `tokio::time::timeout`, which polls the future first, and the `match` on it.
unfoldable pub poll_timeout : {E : Type 0} → ℕ → Option (IoResult E) → Bool → Phase E
poll_timeout deadline (some result) over = finished (result >> ok tt)
poll_timeout deadline none true = finished (ok tt)
poll_timeout deadline none false = draining deadline

pub record Drain (S E : Type 0) : Type 0 where
  pub phase : Phase E
  -- What `begin_shutdown` acts on.
  pub handle : S

module _ {S E : Type 0} (begin_shutdown : S → S) (grace : ℕ) where
  unfoldable pub after_select : Poll E → S → Selected E → Drain S E
  after_select p handle (returned result) = record { phase = finished result; handle = handle }
  after_select p handle signalled =
      let deadline = p.now + grace in
      record {
        phase = poll_timeout deadline p.draining_server (p.is_over deadline);
        handle = begin_shutdown handle;
      }
  after_select p handle waiting = record { phase = serving; handle = handle }

  unfoldable pub poll_phase : Poll E → S → Phase E → Drain S E
  poll_phase p handle serving = after_select p handle (select p)
  poll_phase p handle (draining deadline) = record {
    phase = poll_timeout deadline p.draining_server (p.is_over deadline);
    handle = handle;
  }
  poll_phase p handle (finished result) = record { phase = finished result; handle = handle }

  -- `drain` through a sequence of polls.
  unfoldable pub drain : List (Poll E) → Drain S E → Drain S E
  drain [] d = d
  drain (p ∷ polls) d = drain polls (poll_phase p d.handle d.phase)

-- `drain` before its first poll.
abbrev pub start : {S E : Type 0} → S → Drain S E
start handle = record { phase = serving; handle = handle }
