-- ===== src/Providers/Chain/First.antt =====
-- The answer of a chain is that of its first member with credentials.
use aws_c_auth.Common.{
  ℕ, zero, suc, ◌+◌, ◌<◌, List, [], ◌∷◌, ◌++◌, append_assoc, none, some, length, length-append, ◌≡◌,
  refl, arith,
}
use aws_c_auth.Providers.Chain.{
  Member, calls_back, refuses, ChainOutcome, called_back, never_called_back, get_at, ask_member,
  member_callback, chain_get_credentials_async,
}

-- The outcome that the members call for: the credentials of the first that has some, if none before it
-- refuses, and none if no member has any. The numbers are the reference counts behind it.
abbrev pub first_answer : List Member → ℕ → ChainOutcome
first_answer [] references = called_back none references
first_answer (refuses ∷ members) references = never_called_back (references + 1)
first_answer (calls_back (some credentials) ∷ members) references =
    called_back (some credentials) references
first_answer (calls_back none ∷ members) references = first_answer members references

get_at-append :
    (before : List Member) (m : Member) (behind : List Member)
    → get_at (before ++ m ∷ behind) (length before) ≡ some m
unfolding get_at
get_at-append [] m behind = refl
get_at-append (x ∷ before) m behind = get_at-append before m behind

ask_member-first :
    (fuel : ℕ) (before : List Member) (m : Member) (behind : List Member) (references : ℕ)
    → length behind < fuel
    → ask_member m
        (member_callback fuel (before ++ m ∷ behind) (references + 1) (length before))
        (references + 1)
      ≡ first_answer (m ∷ behind) references
unfolding ask_member member_callback
ask_member-first fuel before refuses behind references h = refl
ask_member-first zero before (calls_back cr) behind references h = ground (arith, h)
ask_member-first (suc fuel) before (calls_back (some cr)) behind references h = ground arith
ask_member-first (suc fuel) before (calls_back none) [] references h =
    ground (arith, length-append before (calls_back none ∷ []))
ask_member-first (suc fuel) before (calls_back none) (m ∷ behind) references h = ground (
  arith,
  length-append before (calls_back none ∷ m ∷ behind),
  length-append before (calls_back none ∷ []),
  append_assoc before (calls_back none ∷ []) (m ∷ behind),
  get_at-append (before ++ calls_back none ∷ []) m behind,
  ask_member-first fuel (before ++ calls_back none ∷ []) m behind references,
)

-- A query to a chain with members, asked one after the other in their order, comes out as the first of
-- them that has credentials or refuses says: with credentials, the callback is made with these; if
-- a member refuses first, it is never made; if there is neither, it is made with none. Where it is
-- made, the chain's reference count is what it was before.
pub chain_get_credentials_async-first :
    (m : Member) (members : List Member) (references : ℕ)
    → chain_get_credentials_async (m ∷ members) references ≡ first_answer (m ∷ members) references
unfolding chain_get_credentials_async get_at
chain_get_credentials_async-first m members references =
    ask_member-first (suc (length members)) [] m members references (omega arith)
