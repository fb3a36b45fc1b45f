-- ===== src/Providers/Lifetime.antt =====
-- Credentials objects, reference counts and shutdown callbacks: source/credentials.c and
-- source/credentials_utils.c.
use aws_c_auth.Common.{ℕ, ◌+◌, ◌-◌, Bool, List, [], ◌∷◌, Option, none, some, Bytes, ◌==◌}
use aws_c_auth.Signing.State.{Credentials}

-- struct aws_credentials_provider_shutdown_options; a callback is a number, and `none` is NULL
pub record ShutdownOptions : Type 0 where
  pub shutdown_callback : Option ℕ

-- The part of struct aws_credentials_provider that all providers share.
pub record Provider : Type 0 where
  pub ref_count : ℕ
  pub shutdown_options : ShutdownOptions

abbrev pub no_shutdown : ShutdownOptions
no_shutdown = record { shutdown_callback = none }

-- aws_credentials_new_from_cursors with both keys at hand, to which aws_credentials_new comes down
abbrev pub credentials_new : Bytes → Bytes → Option Bytes → Credentials
credentials_new access_key_id secret_access_key session_token = record {
  access_key_id = access_key_id;
  secret_access_key = secret_access_key;
  session_token = session_token;
}

-- aws_credentials_new_copy; `none` is NULL
unfoldable pub credentials_new_copy : Option Credentials → Option Credentials
credentials_new_copy none = none
credentials_new_copy (some credentials) = some (
    credentials_new credentials.access_key_id credentials.secret_access_key
      credentials.session_token)

-- aws_credentials_provider_init_base
unfoldable pub provider_init_base : Provider
provider_init_base = record { ref_count = 1; shutdown_options = no_shutdown }

-- aws_credentials_provider_acquire
unfoldable pub provider_acquire : Provider → Provider
provider_acquire provider = record provider { ref_count = provider.ref_count + 1 }

-- aws_credentials_provider_release: the provider, and whether its destroy function is called
unfoldable pub provider_release : Provider → Provider × Bool
provider_release provider =
    (record provider { ref_count = provider.ref_count - 1 }, provider.ref_count == 1)

-- aws_credentials_provider_invoke_shutdown_callback: the callbacks that are made
unfoldable pub provider_invoke_shutdown_callback : Provider → List ℕ
provider_invoke_shutdown_callback provider = elim provider.shutdown_options.shutdown_callback [
  | none ↦ []
  | some callback ↦ callback ∷ []
]
