-- ===== src/Signing/Supported.antt =====
-- The algorithms that the signing code knows: all but AWS_SIGNING_ALGORITHM_COUNT.
use aws_c_auth.Common.{codes, ◌≡◌, ◌≢◌, refl, Result, ok}
use aws_c_auth.Signing.Config.{Algorithm, sig_v4_header, sig_v4_query_param, algorithm_count}
use aws_c_auth.Signing.State.{dispatch, get_signing_algorithm_cursor}

abbrev pub IsSupported : Algorithm → Type 0
IsSupported a = a ≢ algorithm_count

pub dispatch-IsSupported :
    {A : Type 0} (a : Algorithm) (m : Result A) → IsSupported a → dispatch a m ≡ m
unfolding dispatch
dispatch-IsSupported sig_v4_header m h = refl
dispatch-IsSupported sig_v4_query_param m h = refl
dispatch-IsSupported algorithm_count m h = absurd (h refl)

pub algorithm_cursor-IsSupported :
    (a : Algorithm) → IsSupported a → get_signing_algorithm_cursor a ≡ ok (codes "AWS4-HMAC-SHA256")
unfolding get_signing_algorithm_cursor
algorithm_cursor-IsSupported sig_v4_header h = refl
algorithm_cursor-IsSupported sig_v4_query_param h = refl
algorithm_cursor-IsSupported algorithm_count h = absurd (h refl)
