-- ===== src/Shutdown/Outcomes.antt =====
-- What `drain` of authzoo-server/src/shutdown.rs does before it returns, and what it returns.
use authzoo.Common.{
  ℕ, ◌+◌, ◌≤◌, ◌≡◌, refl, sym, Bool, true, false, Option, none, some, List, [], ◌∷◌, ok, err, panic,
  ◌>>◌, All, At, here, there, arith,
}
use authzoo.Shutdown.{
  Poll, IoResult, Phase, serving, draining, finished, Drain, Selected, returned, signalled, waiting,
  select, poll_timeout, after_select, poll_phase, drain, start,
}

-- The poll in which the shutdown began.
pub record Began {E : Type 0} (polls : List (Poll E)) (begun : Poll E) : Type 0 where
  pub polled : At begun polls
  pub received : begun.signal ≡ true

-- Why `drain` returned a result after the shutdown began: the server's result, or the end of the
-- grace period.
pub data Drained {E : Type 0} (grace : ℕ) (polls : List (Poll E)) (begun : Poll E)
    : IoResult E → Type 0 where
  completed :
      {result : IoResult E} (q : Poll E)
      → At q polls
      → q.draining_server ≡ some result
      → Drained grace polls begun result
  expired :
      (q : Poll E) → At q polls → begun.now + grace ≤ q.now → Drained grace polls begun (ok tt)

-- How `drain` got to a state: by the polls it had, from the handle it was given.
pub data Explained {S E : Type 0} (begin_shutdown : S → S) (grace : ℕ) (handle : S)
    (polls : List (Poll E)) : Drain S E → Type 0 where
  at_work :
      Explained begin_shutdown grace handle polls (record { phase = serving; handle = handle })
  stopped :
      {result : IoResult E} (q : Poll E)
      → At q polls
      → q.server ≡ some result
      → Explained begin_shutdown grace handle polls
          (record { phase = finished result; handle = handle })
  closing :
      (begun : Poll E)
      → Began polls begun
      → Explained begin_shutdown grace handle polls
          (record { phase = draining (begun.now + grace); handle = begin_shutdown handle })
  closed :
      {result : IoResult E} (begun : Poll E)
      → Began polls begun
      → Drained grace polls begun result
      → Explained begin_shutdown grace handle polls
          (record { phase = finished result; handle = begin_shutdown handle })

Returned : {E : Type 0} (p : Poll E) → Selected E → Type 0
Returned p (returned result) = p.server ≡ some result
Returned p signalled = p.signal ≡ true
Returned p waiting = Unit

select-Returned : {E : Type 0} (p : Poll E) → Returned p (select p)
unfolding select Returned
select-Returned p = ground arith

returned-eq : {E : Type 0} (result : IoResult E) → (result >> ok tt) ≡ result
returned-eq (ok tt) = refl
returned-eq (err e) = refl
returned-eq panic = refl

-- No sleep is over before its deadline.
abbrev pub IsPunctual : {E : Type 0} → Poll E → Type 0
IsPunctual q = (deadline : ℕ) → q.is_over deadline ≡ true → deadline ≤ q.now

module _ {S E : Type 0} (begin_shutdown : S → S) (grace : ℕ) (handle : S)
    (polls : List (Poll E)) where
  Reached : Phase E → S → Type 0
  Reached phase h =
      Explained begin_shutdown grace handle polls (record { phase = phase; handle = h })

  poll_timeout-Reached :
      (begun q : Poll E) (server : Option (IoResult E)) (over : Bool)
      → Began polls begun
      → At q polls
      → server ≡ q.draining_server
      → (over ≡ true → begun.now + grace ≤ q.now)
      → Reached (poll_timeout (begun.now + grace) server over) (begin_shutdown handle)
  unfolding poll_timeout Reached
  poll_timeout-Reached begun q (some r) over began at same clock =
      rw (returned-eq r) (closed begun began (completed q at (sym same)))
  poll_timeout-Reached begun q none true began at same clock =
      closed begun began (expired q at (clock refl))
  poll_timeout-Reached begun q none false began at same clock = closing begun began

  after_select-Reached :
      (q : Poll E) (selected : Selected E)
      → IsPunctual q
      → At q polls
      → Returned q selected
      → Explained begin_shutdown grace handle polls
          (after_select begin_shutdown grace q handle selected)
  unfolding after_select Returned Reached
  after_select-Reached q (returned r) clock at why = stopped q at why
  after_select-Reached q signalled clock at why =
      poll_timeout-Reached q q q.draining_server (q.is_over (q.now + grace))
        (record { polled = at; received = why }) at refl (clock (q.now + grace))
  after_select-Reached q waiting clock at why = at_work

  poll_phase-Explained :
      (q : Poll E) (d : Drain S E)
      → IsPunctual q
      → At q polls
      → Explained begin_shutdown grace handle polls d
      → Explained begin_shutdown grace handle polls
          (poll_phase begin_shutdown grace q d.handle d.phase)
  unfolding poll_phase Reached
  poll_phase-Explained q d clock at at_work =
      after_select-Reached q (select q) clock at (select-Returned q)
  poll_phase-Explained q d clock at (stopped p was result) = stopped p was result
  poll_phase-Explained q d clock at (closing begun began) =
      poll_timeout-Reached begun q q.draining_server (q.is_over (begun.now + grace)) began at refl
        (clock (begun.now + grace))
  poll_phase-Explained q d clock at (closed begun began drained) = closed begun began drained

  polls-Explained :
      (later : List (Poll E)) (d : Drain S E)
      → All IsPunctual later
      → ((q : Poll E) → At q later → At q polls)
      → Explained begin_shutdown grace handle polls d
      → Explained begin_shutdown grace handle polls (drain begin_shutdown grace later d)
  unfolding drain
  polls-Explained [] d clocks sub why = why
  polls-Explained (q ∷ later) d clocks sub why =
      polls-Explained later _ clocks.1 (λ p at. sub p (there at))
        (poll_phase-Explained q d clocks.0 (sub q (here refl)) why)

-- `drain` has one of four outcomes: still serving, with the handle untouched; returned the server's
-- result before any shutdown, with the handle untouched; or, after a poll in which the signal was
-- received, `begin_shutdown` has been called exactly once, and it is waiting until the grace period
-- from that poll is over, or has returned, with the server's own result, an error included, or
-- with success no earlier than the end of the grace period. It relies on tokio's clock: no sleep is
-- over before its deadline.
pub drain-Explained :
    {S E : Type 0} (begin_shutdown : S → S) (grace : ℕ) (handle : S) (polls : List (Poll E))
    → All IsPunctual polls
    → Explained begin_shutdown grace handle polls (drain begin_shutdown grace polls (start handle))
drain-Explained begin_shutdown grace handle polls clocks =
    polls-Explained begin_shutdown grace handle polls polls (start handle) clocks (λ q at. at)
      at_work
