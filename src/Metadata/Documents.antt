-- ===== src/Metadata/Documents.antt =====
-- Which documents and identifiers authzoo-oauth/src/client_metadata.rs accepts.
use authzoo.Common.{
  contains_iff, ℕ, ◌≤◌, ◌≡◌, refl, ◌≢◌, ◌↔◌, ◌⊎◌, inl, inr, Bool, true, false, not, ◌||◌, Option,
  none, some, List, [], ◌∷◌, Text, text, text_beq_iff, any, All, At, length, text_eq, len, trim,
  is_empty, filled_iff, ltb, ok, >>=-eq-ok, require-eq, ok_or-eq, Returns, Option-cases, arith,
}
use authzoo.Url.{Urls}
use authzoo.Client.{Client, valid_redirect}
use authzoo.Metadata.{
  Document, supports_none, grants_code, is_only_code, responds_code, check_document, parse_document,
}

-- The document has the right of a public client to no authentication.
abbrev pub IsPublicClient : Option (List Text) → Option Text → Type 0
IsPublicClient (some methods) method = At (text "none") methods
IsPublicClient none (some method) = method ≡ text "none"
IsPublicClient none none = Unit

abbrev pub GrantsCode : Option (List Text) → Type 0
GrantsCode none = Unit
GrantsCode (some grants) = At (text "authorization_code") grants

-- A document that the code accepts under an identifier.
pub record IsAcceptable (urls : Urls) (id : Text) (doc : Document) : Type 0 where
  pub same_id : doc.client_id ≡ id
  pub named : trim doc.client_name ≢ []
  pub short_named : len doc.client_name ≤ 256
  pub some_redirect : doc.redirect_uris ≢ []
  pub few_redirects : length doc.redirect_uris ≤ 32
  pub redirects : All (λ uri. valid_redirect urls uri ≡ true) doc.redirect_uris
  pub public :
      IsPublicClient doc.token_endpoint_auth_methods_supported doc.token_endpoint_auth_method
  pub grants : GrantsCode doc.grant_types
  pub responses : (doc.response_types ≡ none) ⊎ (doc.response_types ≡ some (text "code" ∷ []))

-- The client of a document.
abbrev pub client_of : Document → Client
client_of doc = record {
  client_id = doc.client_id;
  name = doc.client_name;
  redirect_uris = doc.redirect_uris;
  cimd = true;
  application_type = doc.application_type;
}

supports_none_iff :
    (methods : Option (List Text)) (method : Option Text)
    → (supports_none methods method ≡ true) ↔ IsPublicClient methods method
supports_none_iff (some methods) method = contains_iff (text "none") methods
supports_none_iff none (some method) = text_beq_iff method (text "none")
supports_none_iff none none = ((λ _. tt), λ _. refl)

grants_code_iff : (o : Option (List Text)) → (grants_code o ≡ true) ↔ GrantsCode o
grants_code_iff none = ((λ _. tt), λ _. refl)
grants_code_iff (some grants) = contains_iff (text "authorization_code") grants

is_only_code_iff : (types : List Text) → (is_only_code types ≡ true) ↔ (types ≡ text "code" ∷ [])
is_only_code_iff [] = ((λ h. cc), λ h. cc)
is_only_code_iff (t ∷ []) = ground (arith, text_beq_iff t (text "code"))
is_only_code_iff (t ∷ u ∷ ts) = ((λ h. cc), λ h. cc)

responds_code_iff :
    (o : Option (List Text))
    → (responds_code o ≡ true) ↔ ((o ≡ none) ⊎ (o ≡ some (text "code" ∷ [])))
responds_code_iff none = ((λ _. inl refl), λ _. refl)
responds_code_iff (some types) = ground (arith, is_only_code_iff types)

all_valid_iff :
    (urls : Urls) (uris : List Text)
    → (any (λ uri. not (valid_redirect urls uri)) uris ≡ false)
      ↔ All (λ uri. valid_redirect urls uri ≡ true) uris
all_valid_iff urls [] = ((λ _. tt), λ _. refl)
all_valid_iff urls (uri ∷ uris) = ground (arith, all_valid_iff urls uris)

not-true_iff : (b : Bool) → (not b ≡ true) ↔ (b ≡ false)
not-true_iff true = ground arith
not-true_iff false = ground arith

module _ (urls : Urls) (id : Text) where
  name_iff :
      (doc : Document)
      → (not (is_empty (trim doc.client_name) || ltb 256 (len doc.client_name)) ≡ true)
        ↔ ((trim doc.client_name ≢ []) × (len doc.client_name ≤ 256))
  name_iff doc = ground (arith, filled_iff (trim doc.client_name))

  count_iff :
      (doc : Document)
      → (not (is_empty doc.redirect_uris || ltb 32 (length doc.redirect_uris)) ≡ true)
        ↔ ((doc.redirect_uris ≢ []) × (length doc.redirect_uris ≤ 32))
  count_iff doc = ground (arith, filled_iff doc.redirect_uris)

  check_document_iff :
      (doc : Document) (client : Client)
      → (check_document urls id doc ≡ ok client)
        ↔ (IsAcceptable urls id doc × (client ≡ client_of doc))
  unfolding check_document
  check_document_iff doc client = (
    λ h.
        let (_, same_id, h) = >>=-eq-ok _ _ h in
        let (_, name, h) = >>=-eq-ok _ _ h in
        let (_, count, h) = >>=-eq-ok _ _ h in
        let (_, uris, h) = >>=-eq-ok _ _ h in
        let (_, supports, h) = >>=-eq-ok _ _ h in
        let (_, grants, h) = >>=-eq-ok _ _ h in
        let (_, responses, h) = >>=-eq-ok _ _ h in
        let (named, short) = (name_iff doc).0 (require-eq _ _ name) in
        let (filled, few) = (count_iff doc).0 (require-eq _ _ count) in
        let valid = (not-true_iff _).0 (require-eq _ _ uris) in
        (
          record {
            same_id = (text_beq_iff _ _).0 (require-eq _ _ same_id);
            named = named;
            short_named = short;
            some_redirect = filled;
            few_redirects = few;
            redirects = (all_valid_iff urls doc.redirect_uris).0 valid;
            public = (supports_none_iff _ _).0 (require-eq _ _ supports);
            grants = (grants_code_iff _).0 (require-eq _ _ grants);
            responses = (responds_code_iff _).0 (require-eq _ _ responses);
          },
          cc,
        ),
    λ (a, e).
        rw
          (
            (text_beq_iff _ _).1 a.same_id,
            (name_iff doc).1 (a.named, a.short_named),
            (count_iff doc).1 (a.some_redirect, a.few_redirects),
            (all_valid_iff urls doc.redirect_uris).1 a.redirects,
            (supports_none_iff _ _).1 a.public,
            (grants_code_iff _).1 a.grants,
            (responds_code_iff _).1 a.responses,
            e,
          )
          refl,
  )

  -- `parse_document` makes a client exactly of a body that reads as a document which is acceptable
  -- under the identifier, and it is that document's client.
  pub parse_document_iff :
      (from_slice : List ℕ → Option Document) (body : List ℕ) (client : Client)
      → (parse_document urls from_slice id body ≡ ok client) ↔ (
          (doc : Document) × (from_slice body ≡ some doc)
          × IsAcceptable urls id doc
          × (client ≡ client_of doc))
  unfolding parse_document
  parse_document_iff from_slice body client = (
    λ h.
        let (doc, read, h) = >>=-eq-ok _ _ h in
        let (a, e) = (check_document_iff doc client).0 h in (doc, ok_or-eq _ _ read, a, e),
    λ (doc, read, a, e). let good = (check_document_iff doc client).1 (a, e) in rw read good,
  )

check_document-Returns :
    (urls : Urls) (id : Text) (doc : Document) → Returns (check_document urls id doc)
unfolding check_document
check_document-Returns urls id doc = ground arith

pub parse_document-Returns :
    (urls : Urls) (from_slice : List ℕ → Option Document) (id : Text) (body : List ℕ)
    → Returns (parse_document urls from_slice id body)
unfolding parse_document
parse_document-Returns urls from_slice id body = elim (Option-cases (from_slice body)) [
  | inl absent ↦ rw absent tt
  | inr (doc, found) ↦ rw found (check_document-Returns urls id doc)
]
