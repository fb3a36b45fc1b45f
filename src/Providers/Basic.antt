-- ===== src/Providers/Basic.antt =====
-- The providers that need no other: source/credentials_provider_static.c and
-- source/credentials_provider_environment.c.
use aws_c_auth.Common.{Option, none, some, Bytes, codes, length, ◌==◌, if◌then◌else◌}
use aws_c_auth.Signing.State.{Credentials}
use aws_c_auth.Profile.Paths.{Platform}
use aws_c_auth.Profile.Collection.{credentials_of}
use aws_c_auth.Providers.Lifetime.{credentials_new, Provider, ShutdownOptions, provider_init_base}

-- The static provider: its base and the credentials that it holds.
pub record StaticProvider : Type 0 where
  pub base : Provider
  pub credentials : Credentials

-- aws_credentials_provider_new_static; an empty session token is no token
unfoldable pub new_static : Bytes → Bytes → Bytes → ShutdownOptions → StaticProvider
new_static access_key_id secret_access_key session_token shutdown_options = record {
  base = record provider_init_base { shutdown_options = shutdown_options };
  credentials =
      credentials_new access_key_id secret_access_key
        (if length session_token == 0 then none else some session_token);
}

-- s_static_credentials_provider_get_credentials_async: what the callback gets
unfoldable pub static_get_credentials_async : StaticProvider → Option Credentials
static_get_credentials_async provider = some provider.credentials

-- s_credentials_provider_environment_get_credentials_async: what the callback gets; the token is read
-- only where both keys are there
unfoldable pub environment_get_credentials_async : Platform → Option Credentials
environment_get_credentials_async platform =
    credentials_of (platform.environment_value (codes "AWS_ACCESS_KEY_ID"))
      (platform.environment_value (codes "AWS_SECRET_ACCESS_KEY"))
      (platform.environment_value (codes "AWS_SESSION_TOKEN"))
