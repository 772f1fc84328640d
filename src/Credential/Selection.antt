-- ===== src/Credential/Selection.antt =====
-- internal/service/provider_credential.go: the choice of a credential for a call, the lookup by its
-- id, and its health. `now` is the time that a call reads from the clock.
use license_server_ai.Base.{
  codes, ℕ, String, Bool, true, false, not, ◌&&◌, ◌||◌, Option, none, some, List, [], ◌∷◌,
  if◌then◌else◌, map, ltb, find?, filter_if, str_eq,
}
use license_server_ai.Base.Int.{ltb_ℤ, eqb_ℤ}
use license_server_ai.Model.Credential.{ProviderCredential, CredentialHealth, is_down}
use license_server_ai.Database.Core.{
  M, Tables, ok, credential_unavailable, record_not_found, pure, raise, recover, send, ◌>>=◌, ◌>>◌,
}
use license_server_ai.Database.Statements.{read}
use license_server_ai.Pricing.Text.{trim_space}
use license_server_ai.Pricing.Rules.{text_eq}
use license_server_ai.Credential.Modes.{normalize_provider_credential_mode}

abbrev pub with_credentials : (List ProviderCredential → List ProviderCredential) → Tables → Tables
with_credentials f t = record t { provider_credentials = f t.provider_credentials }

-- UPDATE … WHERE id = ?.
abbrev pub change_credential :
    String
    → (ProviderCredential → ProviderCredential)
    → List ProviderCredential
    → List ProviderCredential
change_credential id f cs = map (λ c. if str_eq c.id id then f c else c) cs

unfoldable pub update_credential : String → (ProviderCredential → ProviderCredential) → M (Unit {0})
update_credential id f = send (λ t. ok (tt, with_credentials (change_credential id f) t))

-- `MarkHealth`.
unfoldable pub mark_health : String → CredentialHealth → M (Unit {0})
unfolding update_credential
mark_health id health = update_credential id (λ c. record c { health_status = health })

abbrev pub used_at : ℕ → ProviderCredential → ProviderCredential
used_at now c = record c { last_used_at = some now }

-- `tenant_id = ?`, only where the tenant is not blank.
unfoldable pub of_tenant : String → ProviderCredential → Bool
unfolding trim_space text_eq
of_tenant tenant c =
    let tenant' = trim_space (codes tenant) in
    text_eq tenant' [] || text_eq (codes c.tenant_id) tenant'

-- provider = ? AND enabled = ? AND health_status <> ?
unfoldable pub usable : String → ProviderCredential → Bool
usable provider c = str_eq c.provider provider && c.enabled && not (is_down c.health_status)

-- `mode = ?`, only where a mode is asked for.
unfoldable pub in_mode : String → String → ProviderCredential → Bool
unfolding normalize_provider_credential_mode
in_mode provider mode c =
    str_eq mode ""
    || text_eq (codes c.mode) (normalize_provider_credential_mode (codes provider) (codes mode))

unfoldable pub excluded_by : List String → ProviderCredential → Bool
excluded_by [] c = false
excluded_by (id ∷ ids) c = str_eq c.id id || excluded_by ids c

unfoldable pub candidate : String → String → String → List String → ProviderCredential → Bool
unfolding of_tenant usable in_mode excluded_by
candidate tenant provider mode excluded c =
    usable provider c
    && of_tenant tenant c
    && in_mode provider mode c
    && not (excluded_by excluded c)

-- Ascending times; MySQL sorts NULL before every time.
abbrev pub earlier : Option ℕ → Option ℕ → Bool
earlier none none = false
earlier none (some t) = true
earlier (some s) none = false
earlier (some s) (some t) = ltb s t

-- ORDER BY priority DESC, last_used_at ASC: whether `c` must come before `d`.
unfoldable pub preferred : ProviderCredential → ProviderCredential → Bool
preferred c d =
    ltb_ℤ d.priority c.priority
    || (eqb_ℤ c.priority d.priority && earlier c.last_used_at d.last_used_at)

abbrev pub better : ProviderCredential → Option ProviderCredential → ProviderCredential
better c none = c
better c (some d) = if preferred d c then d else c

-- `First`: among equals gorm takes the least primary key, by which the table is listed here.
unfoldable pub first_preferred : List ProviderCredential → Option ProviderCredential
first_preferred [] = none
first_preferred (c ∷ cs) = some (better c (first_preferred cs))

unfoldable pub take_credential : ℕ → Option ProviderCredential → M ProviderCredential
unfolding update_credential
take_credential now none = raise record_not_found
take_credential now (some c) = do
  recover (update_credential c.id (used_at now)) tt
  pure (used_at now c)

-- `SelectForTenantExcluding`.
unfoldable pub select_for_tenant_excluding :
    ℕ → String → String → String → List String → M ProviderCredential
unfolding candidate preferred first_preferred take_credential
select_for_tenant_excluding now tenant provider mode excluded = do
  found ← read (λ t.
      first_preferred (filter_if (candidate tenant provider mode excluded) t.provider_credentials))
  take_credential now found

unfoldable pub check_mode : ℕ → String → String → Option ProviderCredential → M ProviderCredential
unfolding take_credential
check_mode now provider mode none = raise credential_unavailable
check_mode now provider mode (some c) =
    if not (str_eq mode "")
      && not (
          text_eq (normalize_provider_credential_mode (codes provider) (codes c.mode))
            (normalize_provider_credential_mode (codes provider) (codes mode)))
    then raise credential_unavailable
    else take_credential now (some c)

-- `SelectByIDForTenantUse`.
unfoldable pub select_by_id_for_tenant_use :
    ℕ → String → String → String → String → M ProviderCredential
unfolding usable of_tenant check_mode
select_by_id_for_tenant_use now tenant id provider mode = do
  found ← read (λ t.
      find? (λ c. str_eq c.id id && usable provider c && of_tenant tenant c) t.provider_credentials)
  check_mode now provider mode found

unfoldable pub found_credential : Option ProviderCredential → M ProviderCredential
found_credential none = raise record_not_found
found_credential (some c) = pure c

-- `GetForTenant`; `Get` asks without a tenant.
unfoldable pub get_credential_for_tenant : String → String → M ProviderCredential
unfolding of_tenant found_credential
get_credential_for_tenant tenant id = do
  found ← read (λ t. find? (λ c. str_eq c.id id && of_tenant tenant c) t.provider_credentials)
  found_credential found

unfoldable pub get_credential : String → M ProviderCredential
unfolding get_credential_for_tenant
get_credential id = get_credential_for_tenant "" id
