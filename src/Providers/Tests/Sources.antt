-- ===== src/Providers/Tests/Sources.antt =====
-- Runs of the providers that ask a profile.
use aws_c_auth.Common.{
  true, [], ◌∷◌, none, some, codes, bytes_eq, find, ◌==◌, if◌then◌else◌, ◌≡◌, refl,
}
use aws_c_auth.External.Example.{sample}
use aws_c_auth.Profile.Collection.{
  credentials_of, Property, Profile, property_new, profile_get_property,
}
use aws_c_auth.Profile.Paths.{Platform}
use aws_c_auth.Providers.FromProfile.{
  ProfileFile, profile_file_get_credentials_async, Making, new_of_profile,
}
use aws_c_auth.Providers.FromProfile.Values.{file_value, profile_file_get_credentials_async-value}
use aws_c_auth.Providers.FromProfile.Choice.{IsRole, new_of_profile-IsRole}

abbrev platform : Platform
platform = record {
  directory_separator = b'/';
  is_any_directory_separator = λ x. x == b'/';
  home_directory = some (codes "/home/u");
  environment_value = λ name. none;
  file_contents = λ path.
      if bytes_eq path (codes "credentials")
      then some (codes "[default]\naws_access_key_id=AKID\naws_secret_access_key=secret")
      else none;
}

abbrev files : ProfileFile
files = record {
  config_file_path = codes "config";
  credentials_file_path = codes "credentials";
  profile_name = codes "default";
}

profile_file_example :
    profile_file_get_credentials_async sample platform files
    ≡ credentials_of
        (file_value sample platform files (codes "aws_access_key_id"))
        (file_value sample platform files (codes "aws_secret_access_key"))
        (file_value sample platform files (codes "aws_session_token"))
profile_file_example = profile_file_get_credentials_async-value sample platform files

abbrev role_arn : Property
role_arn = property_new (codes "role_arn") (codes "arn:aws:iam::1:role/r")

abbrev assuming : Profile
assuming = record {
  name = codes "p";
  properties =
      (codes "role_arn", role_arn)
      ∷ (codes "source_profile", property_new (codes "source_profile") (codes "base"))
      ∷ [];
  has_profile_prefix = true;
}

abbrev making : Making
making = record { makes_imds = true; makes_sts = λ options. true; pid = codes "4711" }

has_role : profile_get_property assuming (codes "role_arn") ≡ some role_arn
unfolding profile_get_property codes find bytes_eq property_new
has_role = refl

new_of_profile-IsRole_example : IsRole role_arn.value (
    new_of_profile sample making (some assuming) (codes "credentials") (codes "config") (codes "p"))
new_of_profile-IsRole_example =
    new_of_profile-IsRole sample making assuming role_arn (codes "credentials") (codes "config")
      (codes "p") has_role
