-- ===== src/Client/Ports.antt =====
-- The text of a loopback URI without its port, of authzoo-oauth/src/client_metadata.rs.
use authzoo.Common.{
  ℕ, ◌≡◌, refl, sym, ap, ◌∙◌, ◌≢◌, inl, inr, Bool, true, Bool-cases, Option-cases, Option, none,
  some, [], ◌∷◌, Text, text, all, bytes, strip_prefix, strip_prefix-eq-some_iff, starts_with,
  before_first, from_first, split_after-eq, before_first-from_first, before_first-Lacks,
  from_first-Begins, Lacks, Begins, is_ascii_digit, ◌++◌,
}
use authzoo.Client.{
  ends_authority, is_colon, is_closing, split_host, is_port, is_number, rejoin, without_port,
}

-- No port, or a colon and decimal digits.
pub data IsPort : Text → Type 0 where
  no_port : IsPort []
  port :
      {number : Text}
      → number ≢ []
      → all is_ascii_digit (bytes number) ≡ true
      → IsPort (text ":" ++ number)

is_port-IsPort : (p : Text) → is_port p ≡ true → IsPort p
unfolding is_port
is_port-IsPort [] h = no_port
is_port-IsPort (c ∷ p) h = elim (Option-cases (strip_prefix (text ":") (c ∷ p))) [
  | inl absent ↦ cc (rw absent at h)
  | inr (number, found) ↦
      let e = (strip_prefix-eq-some_iff (text ":") (c ∷ p) number).0 found in
      rw e (of_number number (rw found at h))
]
  where
    of_number : (number : Text) → is_number number ≡ true → IsPort (text ":" ++ number)
    of_number [] h = cc
    of_number (d ∷ ds) h = port (λ e. cc) h

split_host-eq :
    (authority host p : Text) → split_host authority ≡ some (host, p) → host ++ p ≡ authority
unfolding split_host
split_host-eq authority host p h = elim (Bool-cases (starts_with (text "[") authority)) [
  | inl bracket ↦ split_after-eq is_closing authority host p (rw bracket at h)
  | inr plain ↦
      let same : (◌≡◌ {A = Option (Text × Text)}
          (some (before_first is_colon authority, from_first is_colon authority))
          (some (host, p))) =
        rw plain at h in
      let b : before_first is_colon authority ≡ host = cc in
      let f : from_first is_colon authority ≡ p = cc in
      rw (sym b, sym f) (before_first-from_first is_colon authority)
]

Lacks-append : (p : ℕ → Bool) (a b : Text) → Lacks p (a ++ b) → Lacks p a
Lacks-append p [] b h = tt
Lacks-append p (c ∷ a) b h = (h.0, Lacks-append p a b h.1)

-- The parts of an `http` URI that `loopback_without_port` looks at.
pub record HasParts (uri host p rest : Text) : Type 0 where
  pub joined : uri ≡ text "http://" ++ (host ++ p) ++ rest
  pub ported : IsPort p
  pub hosted : Lacks ends_authority host
  pub rested : Begins ends_authority rest

abbrev pub Stripped : Text → Text → Type 0
Stripped uri t =
    (host : Text) × (p : Text) × (rest : Text) × HasParts uri host p rest
    × (t ≡ text "http://" ++ host ++ rest)

rejoin-eq :
    (rest : Text) (parts : Option (Text × Text)) (t : Text)
    → rejoin rest parts ≡ some t
    → (host : Text) × (p : Text) × (parts ≡ some (host, p))
      × (is_port p ≡ true)
      × (t ≡ text "http://" ++ host ++ rest)
rejoin-eq rest none t h = cc
rejoin-eq rest (some (host, p)) t h = elim (Bool-cases (is_port p)) [
  | inl fine ↦ (host, p, refl, fine, sym (cc (rw fine at h)))
  | inr wrong ↦ cc (rw wrong at h)
]

pub without_port-Stripped :
    (uri t : Text) → without_port (strip_prefix (text "http://") uri) ≡ some t → Stripped uri t
without_port-Stripped uri t h = elim (Option-cases (strip_prefix (text "http://") uri)) [
  | inl absent ↦ cc (rw absent at h)
  | inr (remainder, found) ↦
      let authority = before_first ends_authority remainder in
      let rest = from_first ends_authority remainder in
      let (host, p, split, fine, e) = rejoin-eq rest (split_host authority) t (rw found at h) in
      let halves = split_host-eq authority host p split in
      let whole = (strip_prefix-eq-some_iff (text "http://") uri remainder).0 found in
      (
        host,
        p,
        rest,
        record {
          joined =
              whole
              ∙ ap (λ r. text "http://" ++ r)
                  (sym (before_first-from_first ends_authority remainder)
                    ∙ ap (λ a. a ++ rest) (sym halves));
          ported = is_port-IsPort p fine;
          hosted =
              Lacks-append ends_authority host p
                (rw halves (before_first-Lacks ends_authority remainder));
          rested = from_first-Begins ends_authority remainder;
        },
        e,
      )
]
