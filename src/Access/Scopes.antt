-- ===== src/Access/Scopes.antt =====
-- The catalogue of scopes and the registry of facets: apiKeyScopes.ts and FacetRegistry.ts. The
-- labels and descriptions of scopes are left out.
use qc_backend.Base.{String, List, [], ◌∷◌, ◌++◌, map}

-- `ApiKeyRole`
pub data ApiKeyRole : Type 0 where
  admin operator reader : ApiKeyRole

pub record ScopeDefinition : Type 0 where
  pub value : String
  pub selectors : List String

abbrev scope : String → List String → ScopeDefinition
scope value selectors = record { value = value; selectors = selectors }

-- `API_KEY_SCOPE_DEFINITIONS`
unfoldable pub scope_definitions : List ScopeDefinition
scope_definitions =
    scope "assets:read" ("asset.get" ∷ "asset.list" ∷ "context.routeAssetRead" ∷ [])
    ∷ scope "assets:write" (
        "asset.create" ∷ "asset.update" ∷ "asset.addOwner" ∷ "asset.revokeOwner"
        ∷ "asset.acceptOwner" ∷ "lifecycle.transition" ∷ [])
    ∷ scope "events:write" ("event.recordAuthenticated" ∷ "event.review" ∷ [])
    ∷ scope "qtags:read" ("commissioning.status" ∷ [])
    ∷ scope "qtags:write" (
        "device.register" ∷ "device.validateTap" ∷ "commissioning.start" ∷ "commissioning.confirm"
        ∷ [])
    ∷ scope "transfers:write" ("transfer.initiate" ∷ [])
    ∷ scope "agents:read" ("agent.status" ∷ [])
    ∷ scope "agents:write" ("agent.register" ∷ "agent.revoke" ∷ [])
    ∷ scope "escrow:read" ("escrow.status" ∷ [])
    ∷ scope "escrow:write" ("escrow.lock" ∷ "escrow.release" ∷ "escrow.cancel" ∷ [])
    ∷ scope "sustainability:write" ("erecycle.recordWaste" ∷ "erecycle.issueCredit" ∷ [])
    ∷ scope "public:read" ("document.verify" ∷ "publicProfile.filter" ∷ [])
    ∷ scope "public:write" ("event.suggestPublic" ∷ "blindContact.submit" ∷ [])
    ∷ []

-- `API_KEY_SCOPES`
unfoldable pub api_key_scopes : List String
unfolding scope_definitions
api_key_scopes = map (λ d. d.value) scope_definitions

abbrev pub entries_of : ScopeDefinition → List (String × String)
entries_of d = map (λ s. (s, d.value)) d.selectors

abbrev pub all_entries : List ScopeDefinition → List (String × String)
all_entries [] = []
all_entries (d ∷ ds) = entries_of d ++ all_entries ds

-- The entries of `SELECTOR_SCOPE_MAP`, from the selector to its scope.
unfoldable pub selector_scope_map : List (String × String)
unfolding scope_definitions
selector_scope_map = all_entries scope_definitions

-- `DEFAULT_SCOPES_BY_ROLE`
unfoldable pub default_scopes_by_role : ApiKeyRole → List String
unfolding api_key_scopes
default_scopes_by_role reader =
    "assets:read" ∷ "qtags:read" ∷ "agents:read" ∷ "escrow:read" ∷ "public:read" ∷ []
default_scopes_by_role operator =
    "assets:read" ∷ "assets:write" ∷ "events:write" ∷ "qtags:read" ∷ "qtags:write"
    ∷ "transfers:write" ∷ "escrow:read" ∷ "escrow:write" ∷ "public:read" ∷ "public:write" ∷ []
default_scopes_by_role admin = api_key_scopes

-- The selectors that `FacetRegistry` has as its own properties.
unfoldable pub facet_registry : List String
facet_registry =
    "device.register" ∷ "device.validateTap" ∷ "asset.create" ∷ "asset.get" ∷ "asset.list"
    ∷ "asset.update" ∷ "asset.addOwner" ∷ "asset.revokeOwner" ∷ "asset.acceptOwner"
    ∷ "event.recordAuthenticated" ∷ "event.suggestPublic" ∷ "event.review"
    ∷ "context.routeAssetRead" ∷ "blindContact.submit" ∷ "publicProfile.filter"
    ∷ "lifecycle.transition" ∷ "transfer.initiate" ∷ "commissioning.start" ∷ "commissioning.confirm"
    ∷ "commissioning.status" ∷ "agent.register" ∷ "agent.revoke" ∷ "agent.status" ∷ "escrow.lock"
    ∷ "escrow.release" ∷ "escrow.cancel" ∷ "escrow.status" ∷ "document.verify"
    ∷ "erecycle.recordWaste" ∷ "erecycle.issueCredit" ∷ []
