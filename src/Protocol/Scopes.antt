-- ===== src/Protocol/Scopes.antt =====
-- The scope words of authzoo-oauth/src/protocol.rs: `parse_scopes` and the loop that checks them.
use authzoo.Common.{
  contains_iff, ℕ, ◌≡◌, refl, ap, ◌∙◌, sym, ◌≢◌, ◌↔◌, inl, inr, Bool, true, false, not, ◌&&◌,
  Bool-cases, List, [], ◌∷◌, ◌++◌, Text, All, At, all, bytes, keep, nat_beq, text_eq, split,
  cons_first, ok, Lacks, arith,
}
use authzoo.Protocol.{
  ScopePolicy, supported, resource_defined, is_scope_byte, valid_scope, not_blank, if_any,
  parse_scopes, is_allowed_by, check_scopes,
}

abbrev is_space : ℕ → Bool
is_space c = nat_beq c 32

abbrev pub joined : List Text → Text
joined [] = []
joined (w ∷ ws) = w ++ joined ws

-- A word of a text: not blank, and without a space.
abbrev pub IsWord : Text → Type 0
IsWord w = (w ≢ []) × Lacks is_space w

split-Lacks : (s : Text) → All (Lacks is_space) (split 32 s)
unfolding split
split-Lacks [] = ground arith
split-Lacks (c ∷ s) = elim (Bool-cases (nat_beq c 32)) [
  | inl hit ↦ rw hit (tt, split-Lacks s)
  | inr miss ↦ rw miss (of_parts (split 32 s) (split-Lacks s) miss)
]
  where
    of_parts :
        (ws : List Text)
        → All (Lacks is_space) ws
        → nat_beq c 32 ≡ false
        → All (Lacks is_space) (cons_first c ws)
    of_parts [] h e = ((e, tt), tt)
    of_parts (w ∷ ws) h e = ((e, h.0), h.1)

joined-split : (s : Text) → joined (split 32 s) ≡ keep (λ c. not (is_space c)) s
unfolding split
joined-split [] = refl
joined-split (c ∷ s) = elim (Bool-cases (nat_beq c 32)) [
  | inl hit ↦ rw hit (joined-split s)
  | inr miss ↦ rw miss (of_parts (split 32 s) ∙ ap (λ t. c ∷ t) (joined-split s))
]
  where
    of_parts : (ws : List Text) → joined (cons_first c ws) ≡ c ∷ joined ws
    of_parts [] = refl
    of_parts (w ∷ ws) = refl

joined-keep : (ws : List Text) → joined (keep not_blank ws) ≡ joined ws
joined-keep [] = refl
joined-keep ([] ∷ ws) = joined-keep ws
joined-keep ((c ∷ w) ∷ ws) = ap (λ t. (c ∷ w) ++ t) (joined-keep ws)

keep-IsWord : (ws : List Text) → All (Lacks is_space) ws → All IsWord (keep not_blank ws)
keep-IsWord [] h = tt
keep-IsWord ([] ∷ ws) h = keep-IsWord ws h.1
keep-IsWord ((c ∷ w) ∷ ws) h = (((λ e. cc), h.0), keep-IsWord ws h.1)

if_any-eq :
    (ws : List Text) (scopes : List Text) → if_any ws ≡ ok scopes → (ws ≡ scopes) × (scopes ≢ [])
if_any-eq [] scopes h = cc
if_any-eq (w ∷ ws) [] h = cc
if_any-eq (w ∷ ws) (v ∷ vs) h = (cc, λ e. cc)

pub parse_scopes-IsWord :
    (s : Text) (scopes : List Text)
    → parse_scopes s ≡ ok scopes
    → (scopes ≢ []) × All IsWord scopes × (joined scopes ≡ keep (λ c. not (is_space c)) s)
unfolding parse_scopes
parse_scopes-IsWord s scopes h =
    let (same, filled) = if_any-eq _ scopes h in
    (
      filled,
      rw (sym same) (keep-IsWord (split 32 s) (split-Lacks s)),
      rw (sym same) (joined-keep (split 32 s) ∙ joined-split s),
    )

-- RFC 6749 syntax, and the list of a static server.
pub record IsGranted (policy : ScopePolicy) (scope : Text) : Type 0 where
  pub filled : scope ≢ []
  pub spelled : all is_scope_byte (bytes scope) ≡ true
  pub listed : (allowed : List Text) → policy ≡ supported allowed → At scope allowed

spelled_iff :
    (scope : Text)
    → (valid_scope scope ≡ true) ↔ ((scope ≢ []) × (all is_scope_byte (bytes scope) ≡ true))
unfolding valid_scope
spelled_iff [] = ground arith
spelled_iff (c ∷ s) = ground arith

IsGranted-iff :
    (policy : ScopePolicy) (scope : Text)
    → (valid_scope scope && is_allowed_by policy scope ≡ true) ↔ IsGranted policy scope
IsGranted-iff (supported allowed) scope = (
  λ h.
      let (filled, spelled) = (spelled_iff scope).0 (ground arith) in
      record {
        filled = filled;
        spelled = spelled;
        listed = λ list e.
            let at = (contains_iff scope allowed).0 (ground arith) in
            let same : allowed ≡ list = cc in rw (sym same) at;
      },
  λ g.
      let valid = (spelled_iff scope).1 (g.filled, g.spelled) in
      let known = (contains_iff scope allowed).1 (g.listed allowed refl) in
      ground (arith, valid, known),
)
IsGranted-iff resource_defined scope = (
  λ h.
      let (filled, spelled) = (spelled_iff scope).0 (ground arith) in
      record { filled = filled; spelled = spelled; listed = λ list e. cc },
  λ g. ground (arith, (spelled_iff scope).1 (g.filled, g.spelled)),
)

-- The loop passes exactly when the policy grants every scope.
pub check_scopes_iff :
    (policy : ScopePolicy) (scopes : List Text)
    → (check_scopes policy scopes ≡ ok tt) ↔ All (IsGranted policy) scopes
unfolding check_scopes
check_scopes_iff policy [] = ground arith
check_scopes_iff policy (scope ∷ scopes) =
    ground (arith, IsGranted-iff policy scope, check_scopes_iff policy scopes)
