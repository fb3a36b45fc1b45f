-- ===== src/Signing/Sign.antt =====
-- The signing process from its start to its callback (source/signing.c).
pub mod Admission
pub mod Reserved
pub mod Ready
pub mod Complete
pub mod Presign
use aws_c_auth.Common.{
  ℕ, List, [], ◌∷◌, Option, none, some, ◌==◌, freed_twice, if◌then◌else◌, Error, Result, ok, err,
  mismatched_configuration, no_credentials, ◌>>=◌,
}
use aws_c_auth.External.{Library}
use aws_c_auth.Signing.Config.{Config}
use aws_c_auth.Signing.Outcome.{SigningResult}
use aws_c_auth.Signing.State.{State, Signable, Credentials, state_new}
use aws_c_auth.Signing.Request.{build_canonical_request, build_string_to_sign}
use aws_c_auth.Signing.Authorization.{build_authorization_value}

-- What `on_complete` is called with: a result and no error, or no result and an error code.
pub data Completion : Type 0 where
  completed : SigningResult → Completion
  failed : Error → Completion

-- AWS_SIGNING_CONFIG_AWS
abbrev pub signing_config_aws : ℕ
signing_config_aws = 1

-- What a provider does as it is asked for credentials: it takes the callback, to make it now or later; it
-- returns an error; or it makes the callback and then returns an error, as s_sts_get_creds does.
pub data Asked : Type 0 where
  takes : Asked
  refuses : Error → Asked
  calls_and_refuses : Option Credentials → Error → Asked

abbrev pub completion_of : Result State → Completion
completion_of (ok state) = completed state.result
completion_of (err e) = failed e

-- what waits for the provider's answer
abbrev pub Wait : Type 0
Wait = Option Credentials → Completion

module _ (c : Library) where
  -- the three stages, in the order in which the callback runs them
  unfoldable pub run_stages : State → Result State
  run_stages state = do
    state ← build_canonical_request c state
    state ← build_string_to_sign c state
    build_authorization_value c state

  -- s_aws_signing_on_get_credentials: the state holds the credentials that the provider gave
  unfoldable pub on_get_credentials : State → Option Credentials → Completion
  on_get_credentials state none = failed no_credentials
  on_get_credentials state (some credentials) =
      completion_of (run_stages (record state { credentials = credentials }))

  -- aws_credentials_provider_get_credentials and what follows it: the completions that are made in the call,
  -- and the wait for the provider's answer. The callback destroys the signing state, so that behind an
  -- error the state is destroyed once more if the callback was made.
  abbrev pub ask_provider : Asked → Wait → List Completion × Result Wait
  ask_provider takes callback = ([], ok callback)
  ask_provider (refuses e) callback = ([], err e)
  ask_provider (calls_and_refuses credentials _) callback =
      (callback credentials ∷ [], err freed_twice)

  abbrev pub ask_with : Result State → Asked → List Completion × Result Wait
  ask_with (err e) asked = ([], err e)
  ask_with (ok state) asked = ask_provider asked (on_get_credentials state)

  -- aws_sign_request_aws
  unfoldable pub sign_request_aws :
      ℕ → Config → Signable → Asked → List Completion × Result (Option Credentials → Completion)
  sign_request_aws config_type config signable asked =
      if config_type == signing_config_aws
      then ask_with (state_new c config signable) asked
      else ([], err mismatched_configuration)
