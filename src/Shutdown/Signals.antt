-- ===== src/Shutdown/Signals.antt =====
-- `Signals` of authzoo-server/src/shutdown.rs on Unix. tokio is a parameter: whether it registers for
-- a signal, and, poll by poll, whether the signal has come.
use authzoo.Common.{
  ◌≡◌, refl, ◌↔◌, Bool, true, false, ◌⊎◌, inl, inr, Option, none, some, List, [], ◌∷◌, Text, text,
  Result, ok, ◌>>=◌, arith,
}

pub data SignalKind : Type 0 where
  terminate_kind interrupt_kind : SignalKind

-- `S` is a `tokio::signal::unix::Signal`.
pub record Signals (S : Type 0) : Type 0 where
  pub terminate : S
  pub interrupt : S

-- `Signals::new`; `signal` is tokio's registration.
unfoldable pub new : {E S : Type 0} → (SignalKind → Result E S) → Result E (Signals S)
new signal = do
  terminate ← signal terminate_kind
  interrupt ← signal interrupt_kind
  ok (record { terminate = terminate; interrupt = interrupt })

-- One poll of the `select!` of `wait`, which polls its branches from a random one on.
pub record SignalPoll (S : Type 0) : Type 0 where
  pub interrupt_first : Bool
  pub has_come : S → Bool

abbrev pub poll_branch : Bool → Text → Option Text → Option Text
poll_branch true name other = some name
poll_branch false name other = other

-- The `select!` of `wait`: which branch is first, and which signals have come.
unfoldable pub select_name : (interrupt_first terminated interrupted : Bool) → Option Text
select_name true t i = poll_branch i (text "SIGINT") (poll_branch t (text "SIGTERM") none)
select_name false t i = poll_branch t (text "SIGTERM") (poll_branch i (text "SIGINT") none)

abbrev pub earlier : Option Text → Option Text → Option Text
earlier (some name) rest = some name
earlier none rest = rest

module _ {S : Type 0} where
  unfoldable pub poll_wait : Signals S → SignalPoll S → Option Text
  poll_wait signals p =
      select_name p.interrupt_first (p.has_come signals.terminate) (p.has_come signals.interrupt)

  -- `wait` through a sequence of polls: the signal that it logs when it returns.
  unfoldable pub wait : Signals S → List (SignalPoll S) → Option Text
  wait signals [] = none
  wait signals (p ∷ polls) = earlier (poll_wait signals p) (wait signals polls)

-- A signal has come, and if both have, it is the one whose branch is first.
pub data Names (interrupt_first terminated interrupted : Bool) (name : Text) : Type 0 where
  by_terminate :
      name ≡ text "SIGTERM"
      → terminated ≡ true
      → (interrupted ≡ false) ⊎ (interrupt_first ≡ false)
      → Names interrupt_first terminated interrupted name
  by_interrupt :
      name ≡ text "SIGINT"
      → interrupted ≡ true
      → (terminated ≡ false) ⊎ (interrupt_first ≡ true)
      → Names interrupt_first terminated interrupted name

select_name-Names :
    (first t i : Bool) (name : Text) → select_name first t i ≡ some name → Names first t i name
unfolding select_name
select_name-Names true true true name h = by_interrupt (cc) refl (inr refl)
select_name-Names true true false name h = by_terminate (cc) refl (inl refl)
select_name-Names true false true name h = by_interrupt (cc) refl (inl refl)
select_name-Names true false false name h = cc
select_name-Names false true true name h = by_terminate (cc) refl (inr refl)
select_name-Names false true false name h = by_terminate (cc) refl (inl refl)
select_name-Names false false true name h = by_interrupt (cc) refl (inl refl)
select_name-Names false false false name h = cc

Names-select_name :
    (first t i : Bool) (name : Text) → Names first t i name → select_name first t i ≡ some name
unfolding select_name
Names-select_name first t i name (by_terminate e f g) = ground arith
Names-select_name first t i name (by_interrupt e f g) = ground arith

select_name-none : (first t i : Bool) → select_name first t i ≡ none → (t ≡ false) × (i ≡ false)
unfolding select_name
select_name-none first t i h = ground arith

none_of_silent : (first t i : Bool) → t ≡ false → i ≡ false → select_name first t i ≡ none
unfolding select_name
none_of_silent first t i e f = ground arith

earlier_iff :
    (o rest : Option Text) (name : Text)
    → (earlier o rest ≡ some name) ↔ ((o ≡ some name) ⊎ ((o ≡ none) × (rest ≡ some name)))
earlier_iff (some found) rest name = ground arith
earlier_iff none rest name = ground arith

module _ {S : Type 0} (signals : Signals S) where
  -- Neither signal has come.
  abbrev pub IsSilent : SignalPoll S → Type 0
  IsSilent p = (p.has_come signals.terminate ≡ false) × (p.has_come signals.interrupt ≡ false)

  abbrev pub NamesAt : Text → SignalPoll S → Type 0
  NamesAt name p =
      Names p.interrupt_first (p.has_come signals.terminate) (p.has_come signals.interrupt) name

  -- The first poll in which a signal has come names it.
  abbrev pub NamesFirst : Text → List (SignalPoll S) → Type 0
  NamesFirst name [] = ⊥
  NamesFirst name (p ∷ polls) = NamesAt name p ⊎ (IsSilent p × NamesFirst name polls)

  -- `wait` returns with a signal exactly when the signal is one that has come in the first poll in
  -- which any has; if both have come by then, it is the one that this poll looks at first.
  pub wait_iff :
      (name : Text) (polls : List (SignalPoll S))
      → (wait signals polls ≡ some name) ↔ NamesFirst name polls
  unfolding wait poll_wait
  wait_iff name [] = (λ h. cc, λ h. absurd h)
  wait_iff name (p ∷ polls) =
      let (to, of) = wait_iff name polls in
      let (split, join) = earlier_iff (poll_wait signals p) (wait signals polls) name in
      (
        λ h. elim (split h) [
          | inl found ↦ inl (select_name-Names _ _ _ name found)
          | inr (silent, rest) ↦ inr (select_name-none _ _ _ silent, to rest)
        ],
        λ h. elim h [
          | inl names ↦ join (inl (Names-select_name _ _ _ name names))
          | inr ((t, i), rest) ↦ join (inr (none_of_silent _ _ _ t i, of rest))
        ],
      )
