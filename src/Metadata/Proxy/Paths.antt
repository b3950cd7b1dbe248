-- ===== src/Metadata/Proxy/Paths.antt =====
-- What a client of the proxy gets.
use cluster_controller.Prelude.{
  String, ◌≡◌, refl, ap, sym, ◌∙◌, Option, none, some, List, ◌⊎◌, inl, inr, some_injective,
}
use cluster_controller.Errors.{Outcome, ok, err, panic}
use cluster_controller.World.{Env, World, lift, pure, MetadataPayload}
use cluster_controller.World.Monad.Inversion.{continue-eq-ok, lift-eq-ok, ok-injective}
use cluster_controller.Metadata.Backend.{answer}
use cluster_controller.Metadata.Backend.Grants.{Granted, answer-Granted}
use cluster_controller.Metadata.Proxy.{
  SocketAddr, v4, v6, Body, text, Route, fixed, of_metadata, no_route, app, extract_ipv4_address,
  fetch_metadata, addr_to_metadata, body_of, follow, serve, accept,
}

-- The body is made of the metadata of the machine that owns the address.
pub record Served (env : Env) (addr : Option SocketAddr) (route : Route) (body : Body)
    : Type 0 where
  pub ip : String
  pub client : addr ≡ some (v4 ip)
  pub payload : MetadataPayload
  pub allowed : Granted env ip payload
  pub make : MetadataPayload → Body
  pub dynamic : route ≡ of_metadata make
  pub same_body : body ≡ make payload

-- Or it is a fixed text.
abbrev pub Explained : Env → Option SocketAddr → Route → Body → Type 0
Explained env addr route body =
    ((listing : String) × (route ≡ fixed listing) × (body ≡ text listing))
    ⊎ Served env addr route body

accept-eq-ok :
    (r : Outcome MetadataPayload) {p : MetadataPayload} → accept r ≡ ok (some p) → r ≡ ok p
accept-eq-ok (ok q) h = ap ok (let same : q ≡ _ = cc (ok-injective h) in same)
accept-eq-ok (err e) h = absurd (let no_value : ⊥ = cc (ok-injective h) in no_value)
accept-eq-ok panic h = absurd (let no_value : ⊥ = cc h in no_value)

fetched :
    (addr : Option SocketAddr) (env : Env) (w v : World) (p : MetadataPayload)
    → addr_to_metadata answer addr env w ≡ (ok (some p), v)
    → (ip : String) × (addr ≡ some (v4 ip)) × Granted env ip p
unfolding addr_to_metadata extract_ipv4_address fetch_metadata
fetched none env w v p h =
    absurd (let no_value : ⊥ = cc (ok-injective (lift-eq-ok h).0) in no_value)
fetched (some (v6 ip)) env w v p h =
    absurd (let no_value : ⊥ = cc (ok-injective (lift-eq-ok h).0) in no_value)
fetched (some (v4 ip)) env w v p h =
    let (response, u, asked, last) =
      continue-eq-ok (answer ip env w) (λ response. lift (accept response)) env h in
    let accepted = accept-eq-ok response (lift-eq-ok last).0 in
    (ip, refl, answer-Granted ip env w (asked ∙ ap (λ r. (ok r, u)) accepted))

followed :
    (route : Route) (addr : Option SocketAddr) (env : Env) (w end : World) (body : Body)
    → follow answer route addr env w ≡ (ok (some body), end)
    → Explained env addr route body
followed (fixed listing) addr env w end body h =
    inl (listing, refl, sym (some_injective (ok-injective (lift-eq-ok h).0)))
followed no_route addr env w end body h =
    absurd (let no_value : ⊥ = cc (ok-injective (lift-eq-ok h).0) in no_value)
followed (of_metadata make) addr env w end body h =
    let (metadata, v, first, last) =
      continue-eq-ok (addr_to_metadata answer addr env w)
        (λ metadata. pure (body_of answer make metadata)) env h in
    inr (served make metadata first (ok-injective (lift-eq-ok last).0))
  where
    served :
        (make : MetadataPayload → Body) (metadata : Option MetadataPayload) {v : World}
        → addr_to_metadata answer addr env w ≡ (ok metadata, v)
        → body_of answer make metadata ≡ some body
        → Served env addr (of_metadata make) body
    served make none p e = absurd (let no_value : ⊥ = cc e in no_value)
    served make (some metadata) {v} p e =
        let (ip, client, allowed) = fetched addr env w v metadata p in
        record {
          ip = ip;
          client = client;
          payload = metadata;
          allowed = allowed;
          make = make;
          dynamic = refl;
          same_body = sym (some_injective e);
        }

-- Whatever the path and the client: a response that is not 404 is either the fixed text of its
-- path, or the client has an IPv4 address and the body is what the path makes of the payload that
-- the backend may give for this address.
pub serve-Explained :
    (version : String) (path : List String) (addr : Option SocketAddr) (env : Env) (w : World)
    {body : Body} {end : World}
    → serve answer version path addr env w ≡ (ok (some body), end)
    → Explained env addr (app version path) body
unfolding serve
serve-Explained version path addr env w {body} {end} h =
    followed (app version path) addr env w end body h
