-- ===== src/Shutdown/Liveness.antt =====
-- `drain` of authzoo-server/src/shutdown.rs returns.
use authzoo.Common.{
  ℕ, ◌+◌, ◌≤◌, ◌≡◌, refl, Bool, true, false, Option, none, some, List, [], ◌∷◌, ◌++◌, All, arith,
}
use authzoo.Shutdown.{
  Poll, IoResult, Phase, serving, draining, finished, Drain, Selected, returned, signalled, waiting,
  select, poll_timeout, after_select, poll_phase, drain, start,
}

-- Neither past a deadline later than `latest`.
abbrev DueBy : {E : Type 0} → ℕ → Phase E → Type 0
DueBy latest serving = Unit
DueBy latest (draining deadline) = deadline ≤ latest
DueBy latest (finished result) = Unit

-- The same, and the signal has been received or the server has returned.
abbrev StopsBy : {E : Type 0} → ℕ → Phase E → Type 0
StopsBy latest serving = ⊥
StopsBy latest (draining deadline) = deadline ≤ latest
StopsBy latest (finished result) = Unit

abbrev pub IsFinished : {E : Type 0} → Phase E → Type 0
IsFinished serving = ⊥
IsFinished (draining deadline) = ⊥
IsFinished (finished result) = Unit

module _ {E : Type 0} where
  poll_timeout-StopsBy :
      (latest deadline : ℕ) (server : Option (IoResult E)) (over : Bool)
      → deadline ≤ latest
      → StopsBy latest (poll_timeout deadline server over)
  unfolding poll_timeout
  poll_timeout-StopsBy latest deadline (some r) over h = tt
  poll_timeout-StopsBy latest deadline none true h = tt
  poll_timeout-StopsBy latest deadline none false h = h

  poll_timeout-IsFinished :
      (deadline : ℕ) (server : Option (IoResult E)) → IsFinished (poll_timeout deadline server true)
  unfolding poll_timeout
  poll_timeout-IsFinished deadline (some r) = tt
  poll_timeout-IsFinished deadline none = tt

  StopsBy→DueBy : (latest : ℕ) (phase : Phase E) → StopsBy latest phase → DueBy latest phase
  StopsBy→DueBy latest serving h = tt
  StopsBy→DueBy latest (draining d) h = h
  StopsBy→DueBy latest (finished r) h = tt

  DueBy-mono : (a b : ℕ) (phase : Phase E) → a ≤ b → DueBy a phase → DueBy b phase
  DueBy-mono a b serving le h = tt
  DueBy-mono a b (draining d) le h = omega arith
  DueBy-mono a b (finished r) le h = tt

module _ {S E : Type 0} (begin_shutdown : S → S) (grace : ℕ) where
  after_select-DueBy :
      (p : Poll E) (handle : S) (selected : Selected E)
      → DueBy (p.now + grace) ((after_select begin_shutdown grace p handle selected).phase)
  unfolding after_select
  after_select-DueBy p handle (returned r) = tt
  after_select-DueBy p handle signalled =
      StopsBy→DueBy (p.now + grace) (poll_timeout _ p.draining_server _) (
        poll_timeout-StopsBy (p.now + grace) (p.now + grace) p.draining_server
          (p.is_over (p.now + grace)) (omega arith))
  after_select-DueBy p handle waiting = tt

  poll_phase-DueBy :
      (latest : ℕ) (p : Poll E) (handle : S) (phase : Phase E)
      → p.now + grace ≤ latest
      → DueBy latest phase
      → DueBy latest ((poll_phase begin_shutdown grace p handle phase).phase)
  unfolding poll_phase
  poll_phase-DueBy latest p handle serving le h =
      DueBy-mono _ latest _ le (after_select-DueBy p handle (select p))
  poll_phase-DueBy latest p handle (draining d) le h =
      StopsBy→DueBy latest (poll_timeout d _ _)
        (poll_timeout-StopsBy latest d p.draining_server (p.is_over d) h)
  poll_phase-DueBy latest p handle (finished r) le h = tt

  poll_phase-StopsBy :
      (latest : ℕ) (p : Poll E) (handle : S) (phase : Phase E)
      → StopsBy latest phase
      → StopsBy latest ((poll_phase begin_shutdown grace p handle phase).phase)
  unfolding poll_phase
  poll_phase-StopsBy latest p handle serving h = elim h [ ]
  poll_phase-StopsBy latest p handle (draining d) h =
      poll_timeout-StopsBy latest d p.draining_server (p.is_over d) h
  poll_phase-StopsBy latest p handle (finished r) h = tt

  drain-DueBy :
      (latest : ℕ) (polls : List (Poll E)) (d : Drain S E)
      → All (λ p. p.now + grace ≤ latest) polls
      → DueBy latest d.phase
      → DueBy latest ((drain begin_shutdown grace polls d).phase)
  unfolding drain
  drain-DueBy latest [] d les h = h
  drain-DueBy latest (p ∷ polls) d les h =
      drain-DueBy latest polls _ les.1 (poll_phase-DueBy latest p d.handle d.phase les.0 h)

  drain-StopsBy :
      (latest : ℕ) (polls : List (Poll E)) (d : Drain S E)
      → StopsBy latest d.phase
      → StopsBy latest ((drain begin_shutdown grace polls d).phase)
  unfolding drain
  drain-StopsBy latest [] d h = h
  drain-StopsBy latest (p ∷ polls) d h =
      drain-StopsBy latest polls _ (poll_phase-StopsBy latest p d.handle d.phase h)

  drain-append :
      (before after : List (Poll E)) (d : Drain S E)
      → drain begin_shutdown grace (before ++ after) d
        ≡ drain begin_shutdown grace after (drain begin_shutdown grace before d)
  unfolding drain
  drain-append [] after d = refl
  drain-append (p ∷ before) after d = drain-append before after _

  -- A poll in which the signal is ready leaves `select!`.
  select-StopsBy :
      (p : Poll E) (handle : S)
      → p.signal ≡ true
      → StopsBy (p.now + grace) ((after_select begin_shutdown grace p handle (select p)).phase)
  unfolding select after_select poll_timeout
  select-StopsBy p handle ready = ground arith

  signal-StopsBy :
      (p : Poll E) (handle : S) (phase : Phase E)
      → p.signal ≡ true
      → DueBy (p.now + grace) phase
      → StopsBy (p.now + grace) ((poll_phase begin_shutdown grace p handle phase).phase)
  unfolding poll_phase
  signal-StopsBy p handle serving ready h = select-StopsBy p handle ready
  signal-StopsBy p handle (draining d) ready h =
      poll_timeout-StopsBy (p.now + grace) d p.draining_server (p.is_over d) h
  signal-StopsBy p handle (finished r) ready h = tt

  late-IsFinished :
      (latest : ℕ) (p : Poll E) (handle : S) (phase : Phase E)
      → ((deadline : ℕ) → deadline ≤ latest → p.is_over deadline ≡ true)
      → StopsBy latest phase
      → IsFinished ((poll_phase begin_shutdown grace p handle phase).phase)
  unfolding poll_phase
  late-IsFinished latest p handle serving over h = elim h [ ]
  late-IsFinished latest p handle (draining d) over h =
      rw (over d h) (poll_timeout-IsFinished d p.draining_server)
  late-IsFinished latest p handle (finished r) over h = tt

  poll_phase-IsFinished :
      (p : Poll E) (handle : S) (phase : Phase E)
      → IsFinished phase
      → IsFinished ((poll_phase begin_shutdown grace p handle phase).phase)
  unfolding poll_phase
  poll_phase-IsFinished p handle serving h = elim h [ ]
  poll_phase-IsFinished p handle (draining d) h = elim h [ ]
  poll_phase-IsFinished p handle (finished r) h = tt

  drain-stays-IsFinished :
      (polls : List (Poll E)) (d : Drain S E)
      → IsFinished d.phase
      → IsFinished ((drain begin_shutdown grace polls d).phase)
  unfolding drain
  drain-stays-IsFinished [] d h = h
  drain-stays-IsFinished (p ∷ polls) d h =
      drain-stays-IsFinished polls _ (poll_phase-IsFinished p d.handle d.phase h)

  -- A poll with the signal, and a later one for which the deadlines up to then are over.
  drain-stops :
      (between after : List (Poll E)) (p last : Poll E) (d : Drain S E)
      → ((deadline : ℕ) → deadline ≤ p.now + grace → last.is_over deadline ≡ true)
      → StopsBy (p.now + grace) ((poll_phase begin_shutdown grace p d.handle d.phase).phase)
      → IsFinished ((drain begin_shutdown grace (p ∷ (between ++ (last ∷ after))) d).phase)
  unfolding drain
  drain-stops between after p last d clock stops =
      let e = poll_phase begin_shutdown grace p d.handle d.phase in
      let f = drain begin_shutdown grace between e in
      rw (drain-append between (last ∷ after) e) (
        drain-stays-IsFinished after (poll_phase begin_shutdown grace last f.handle f.phase) (
          late-IsFinished (p.now + grace) last f.handle f.phase clock
            (drain-StopsBy (p.now + grace) between e stops)))

  sooner :
      (polls : List (Poll E)) (time : ℕ)
      → All (λ q. q.now ≤ time) polls
      → All (λ q. q.now + grace ≤ time + grace) polls
  sooner [] time h = tt
  sooner (q ∷ polls) time h = (omega (arith, h.0), sooner polls time h.1)

  -- `drain` returns: if the signal is ready in a poll, the polls before it are no later, and a
  -- later poll comes when the grace period after the signal has passed, then `drain` has returned by
  -- that poll, and stays so, whatever the server does. It relies on tokio's clock, which may run late
  -- by `slack`: at that later poll, a sleep until a deadline that has passed by `slack` is over.
  pub drain-IsFinished :
      (slack : ℕ) (handle : S) (before between after : List (Poll E)) (p last : Poll E)
      → ((deadline : ℕ) → deadline + slack ≤ last.now → last.is_over deadline ≡ true)
      → p.signal ≡ true
      → All (λ q. q.now ≤ p.now) before
      → p.now + grace + slack ≤ last.now
      → IsFinished (
          (drain begin_shutdown grace
            (before ++ (p ∷ (between ++ (last ∷ after))))
            (start handle)).phase)
  drain-IsFinished slack handle before between after p last clock ready order late =
      let d = drain begin_shutdown grace before (start handle) in
      let due = drain-DueBy (p.now + grace) before (start handle) (sooner before p.now order) tt in
      rw (drain-append before (p ∷ (between ++ (last ∷ after))) (start handle)) (
        drain-stops between after p last d (λ deadline le. clock deadline (omega arith))
          (signal-StopsBy p d.handle d.phase ready due))
