-- ===== src/Credential/Modes.antt =====
-- internal/service/provider_credential.go, `NormalizeProviderCredentialMode`: the mode of a channel,
-- by its provider. Texts are lists of code points, as in Pricing.Text: case and space are ASCII's.
use license_server_ai.Base.{codes, ℕ, ◌+◌, String, Bool, ◌&&◌, ◌||◌, [], map, if◌then◌else◌, leb}
use license_server_ai.Pricing.Text.{Text, trim_space}
use license_server_ai.Pricing.Rules.{text_eq}

unfoldable pub lower : ℕ → ℕ
lower c = if leb b'A' c && leb c b'Z' then c + 32 else c

-- `strings.ToLower(strings.TrimSpace(s))`.
unfoldable pub clean : Text → Text
unfolding lower trim_space
clean s = map lower (trim_space s)

abbrev pub is_text : Text → String → Bool
is_text s t = text_eq s (codes t)

-- The mode itself where it is known, or the provider's own.
abbrev known_or : Text → Bool → String → Text
known_or mode known own = if known then mode else codes own

unfoldable pub normal_mode : Text → Text → Text
unfolding text_eq
normal_mode provider mode =
    if is_text provider "gemini"
    then known_or mode (is_text mode "duoyuan") "official"
    else if is_text provider "gpt"
    then known_or mode (is_text mode "gzxsy") "official"
    else if is_text provider "veo"
    then known_or mode (is_text mode "adapter" || is_text mode "duoyuan") "google"
    else if is_text provider "sora"
    then known_or mode (is_text mode "chat") "async"
    else if is_text provider "grok"
    then known_or mode (is_text mode "duoyuan" || is_text mode "suchuang") "official"
    else if text_eq mode []
    then codes "official"
    else mode

-- `NormalizeProviderCredentialMode`.
unfoldable pub normalize_provider_credential_mode : Text → Text → Text
unfolding normal_mode clean
normalize_provider_credential_mode provider mode = normal_mode (clean provider) (clean mode)
