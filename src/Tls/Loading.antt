-- ===== src/Tls/Loading.antt =====
-- `load` of authzoo-server/src/tls.rs. rustls is a parameter: `C` is a certificate, `K` a private key
-- and `S` a server's configuration without its protocols.
use authzoo.Common.{
  Option-cases, inl, inr, ap, ◌≡◌, refl, Option, none, some, List, [], ◌∷◌, map, Text, text, Result,
  ok, err, panic, ok_or, ok_or-eq, ◌>>=◌, >>=-eq-ok, ok-inj,
}
use authzoo.Tls.{FilePath}

pub record Rustls (C K S : Type 0) : Type 0 where
  -- The file's certificates as they parse, if it opens.
  pub pem_file_iter : FilePath → Option (List (Option C))
  pub from_pem_file : FilePath → Option K
  -- Whether the provider has the default protocol versions.
  pub has_default_versions : Option (Unit {0})
  pub with_single_cert : List C → K → Option S

pub data LoadError : Type 0 where
  certificate_unopened key_unreadable : FilePath → LoadError
  chain_unparsable versions_unsupported certificate_invalid : LoadError
  -- The blocking task panicked.
  task_failed : LoadError

pub record RustlsConfig (S : Type 0) : Type 0 where
  pub server : S
  pub alpn_protocols : List Text

-- `collect` into a result.
unfoldable pub collect : {C : Type 0} → List (Option C) → Option (List C)
collect [] = some []
collect (none ∷ cs) = none
collect (some c ∷ cs) = elim (collect cs) [ none ↦ none | some rest ↦ some (c ∷ rest) ]

-- `await??` of the blocking task.
abbrev pub joined : {A : Type 0} → Result LoadError A → Result LoadError A
joined (ok a) = ok a
joined (err e) = err e
joined panic = err task_failed

module _ {C K S : Type 0} (rustls : Rustls C K S) where
  unfoldable pub server_config : FilePath → FilePath → Result LoadError (RustlsConfig S)
  server_config certificate private_key = do
    parsed ← ok_or (rustls.pem_file_iter certificate) (certificate_unopened certificate)
    certs ← ok_or (collect parsed) chain_unparsable
    key ← ok_or (rustls.from_pem_file private_key) (key_unreadable private_key)
    _ ← ok_or rustls.has_default_versions versions_unsupported
    server ← ok_or (rustls.with_single_cert certs key) certificate_invalid
    ok (record { server = server; alpn_protocols = text "h2" ∷ text "http/1.1" ∷ [] })

  -- `load`.
  unfoldable pub load : FilePath → FilePath → Result LoadError (RustlsConfig S)
  load certificate private_key = joined (server_config certificate private_key)

-- A configuration for these files: every certificate of the one file, in order, with the key of the
-- other, for HTTP/2 before HTTP/1.1.
pub record Serves {C K S : Type 0} (rustls : Rustls C K S) (certificate private_key : FilePath)
    (config : RustlsConfig S) : Type 0 where
  pub certs : List C
  pub chain : rustls.pem_file_iter certificate ≡ some (map some certs)
  pub key : K
  pub keyed : rustls.from_pem_file private_key ≡ some key
  pub matched : rustls.with_single_cert certs key ≡ some config.server
  pub protocols : config.alpn_protocols ≡ text "h2" ∷ text "http/1.1" ∷ []

collect-map :
    {C : Type 0} (parsed : List (Option C)) (certs : List C)
    → collect parsed ≡ some certs
    → parsed ≡ map some certs
unfolding collect
collect-map [] certs h = let e : [] ≡ certs = cc in rw (← e) refl
collect-map (none ∷ cs) certs h = cc
collect-map (some c ∷ cs) certs h = elim (Option-cases (collect cs)) [
  | inl absent ↦ cc (rw (absent, collect) at h)
  | inr (rest, found) ↦
      let e : ◌≡◌ {A = Option (List _)} (some (c ∷ rest)) (some certs) = rw (found, collect) at h in
      let same : c ∷ rest ≡ certs = cc in
      rw (← same) (ap (λ l. some c ∷ l) (collect-map cs rest found))
]

joined-eq : {A : Type 0} (r : Result LoadError A) {a : A} → joined r ≡ ok a → r ≡ ok a
joined-eq (ok a) h = h
joined-eq (err e) h = cc
joined-eq panic h = cc

-- What `load` returns serves the two files.
pub load-Serves :
    {C K S : Type 0} (rustls : Rustls C K S) (certificate private_key : FilePath)
    (config : RustlsConfig S)
    → load rustls certificate private_key ≡ ok config
    → Serves rustls certificate private_key config
unfolding load server_config
load-Serves rustls certificate private_key config h =
    let (parsed, opened, h) =
      >>=-eq-ok (ok_or (rustls.pem_file_iter certificate) _) _ (joined-eq _ h) in
    let (certs, collected, h) = >>=-eq-ok (ok_or (collect parsed) _) _ h in
    let (key, read, h) = >>=-eq-ok (ok_or (rustls.from_pem_file private_key) _) _ h in
    let (_, _, h) = >>=-eq-ok (ok_or rustls.has_default_versions _) _ h in
    let (server, matched, h) = >>=-eq-ok (ok_or (rustls.with_single_cert certs key) _) _ h in
    rw (← ok-inj h) (record {
      certs = certs;
      chain = rw (← collect-map parsed certs (ok_or-eq _ _ collected)) (ok_or-eq _ _ opened);
      key = key;
      keyed = ok_or-eq _ _ read;
      matched = ok_or-eq _ _ matched;
      protocols = refl;
    })
