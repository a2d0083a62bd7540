-- ===== src/Client/Redirects.antt =====
-- Which redirect URIs `Client::allows_redirect` of authzoo-oauth/src/client_metadata.rs lets through.
use authzoo.Common.{
  ◌≡◌, refl, sym, ap, ◌∙◌, inl, inr, true, ◌&&◌, Bool-cases, Option, none, some, Text, text,
  text_beq, text_beq_iff, any_sound, At, Lacks, Begins, Lacks-Begins-unique, arith, ◌++◌,
}
use authzoo.Url.{Url, Urls, is_loopback_host}
use authzoo.Client.{
  ApplicationType, web, native, Client, ends_authority, valid_redirect, is_loopback_url,
  loopback_without_port, are_same, allows_registered, allows_redirect,
}
use authzoo.Client.Ports.{IsPort, Stripped, without_port-Stripped}

-- Two valid redirect URIs on a loopback host with the same text but for the port.
pub record DifferInPort (urls : Urls) (registered requested : Text) : Type 0 where
  pub host : Text
  pub rest : Text
  pub port_registered : Text
  pub port_requested : Text
  pub registered_joined : registered ≡ text "http://" ++ (host ++ port_registered) ++ rest
  pub requested_joined : requested ≡ text "http://" ++ (host ++ port_requested) ++ rest
  pub registered_port : IsPort port_registered
  pub requested_port : IsPort port_requested
  pub hosted : Lacks ends_authority host
  pub rested : Begins ends_authority rest
  pub valid : valid_redirect urls requested ≡ true
  pub loopback :
      (url : Url) × (urls.parse requested ≡ some url) × (is_loopback_host url.host ≡ true)

module _ (urls : Urls) where
  loopback_without_port-Stripped :
      (uri t : Text)
      → loopback_without_port urls uri ≡ some t
      → (valid_redirect urls uri ≡ true)
        × ((url : Url) × (urls.parse uri ≡ some url) × (is_loopback_host url.host ≡ true))
        × Stripped uri t
  unfolding loopback_without_port
  loopback_without_port-Stripped uri t h =
      elim (Bool-cases (valid_redirect urls uri && is_loopback_url urls (urls.parse uri))) [
        | inr bad ↦ cc (rw bad at h)
        | inl good ↦ (
          ground (arith, good),
          of_url (urls.parse uri) refl (ground (arith, good)),
          without_port-Stripped uri t (rw good at h),
        )
      ]
    where
      of_url :
          (o : Option Url)
          → urls.parse uri ≡ o
          → is_loopback_url urls o ≡ true
          → (url : Url) × (urls.parse uri ≡ some url) × (is_loopback_host url.host ≡ true)
      of_url none e h = cc
      of_url (some url) e h = (url, e, h)

  are_same-eq :
      (a b : Option Text) → are_same urls a b ≡ true → (t : Text) × (a ≡ some t) × (b ≡ some t)
  are_same-eq none b h = cc
  are_same-eq (some a) none h = cc
  are_same-eq (some a) (some b) h = (a, refl, ap some (sym ((text_beq_iff a b).0 h)))

  DifferInPort-of :
      (registered requested : Text)
      → are_same urls (loopback_without_port urls registered) (loopback_without_port urls requested)
        ≡ true
      → DifferInPort urls registered requested
  DifferInPort-of registered requested h =
      let (t, e, e') = are_same-eq _ _ h in
      let (_, _, (host, p, rest, parts, same)) = loopback_without_port-Stripped registered t e in
      let (valid, loop, (host', p', rest', parts', same')) =
        loopback_without_port-Stripped requested t e' in
      let (hosts, rests) =
        Lacks-Begins-unique ends_authority host' host rest' rest parts'.hosted parts.hosted
          parts'.rested parts.rested (cc (sym same' ∙ same)) in
      record {
        host = host;
        rest = rest;
        port_registered = p;
        port_requested = p';
        registered_joined = parts.joined;
        requested_joined =
            parts'.joined
            ∙ ap (λ h. text "http://" ++ (h ++ p') ++ rest') hosts
            ∙ ap (λ r. text "http://" ++ (host ++ p') ++ r) rests;
        registered_port = parts.ported;
        requested_port = parts'.ported;
        hosted = parts.hosted;
        rested = parts.rested;
        valid = valid;
        loopback = loop;
      }

  -- Why a registered URI lets a requested one through.
  pub data Lets : ApplicationType → Text → Text → Type 0 where
    exactly :
        {a : ApplicationType} {registered requested : Text}
        → registered ≡ requested
        → Lets a registered requested
    but_for_port :
        {registered requested : Text}
        → DifferInPort urls registered requested
        → Lets native registered requested

  allows_registered-Lets :
      (a : ApplicationType) (requested registered : Text)
      → allows_registered urls a requested registered ≡ true
      → Lets a registered requested
  unfolding allows_registered
  allows_registered-Lets web requested registered h = exactly ((text_beq_iff _ _).0 h)
  allows_registered-Lets native requested registered h =
      elim (Bool-cases (text_beq registered requested)) [
        | inl same ↦ exactly ((text_beq_iff _ _).0 same)
        | inr differ ↦ but_for_port (DifferInPort-of registered requested (rw differ at h))
      ]

  -- A redirect URI that a client is allowed: one that it registered, to the letter; or, for a native
  -- client, a valid URI on a loopback host that has the text of a registered one but for the port.
  pub allows_redirect-Lets :
      (client : Client) (requested : Text)
      → allows_redirect urls client requested ≡ true
      → (registered : Text) × At registered client.redirect_uris
        × Lets client.application_type registered requested
  unfolding allows_redirect
  allows_redirect-Lets client requested h =
      let (registered, at, hit) =
        any_sound (allows_registered urls client.application_type requested) client.redirect_uris
          h in
      (registered, at, allows_registered-Lets client.application_type requested registered hit)
