-- ===== src/Signing/Headers/Groups.antt =====
-- What the header block and the list of signed headers say: the headers of one name, whatever its
-- case, in one line of the block and under one entry of the list.
use aws_c_auth.Common.{
  Bool, List, [], ◌∷◌, ◌++◌, map, Bytes, bytes_eq, if◌then◌else◌, ◌≡◌, refl, Bool-cases, inl, inr,
}
use aws_c_auth.External.{Library, joined}
use aws_c_auth.Signing.Headers.{StableHeader}
use aws_c_auth.Signing.Headers.Lines.{led, value_lines}

-- The headers that stand behind each other with one name: the name as the first of them has it, the value
-- of the first, and those of the others.
pub record Group : Type 0 where
  pub name : Bytes
  pub first : Bytes
  pub others : List Bytes

abbrev pub alone : StableHeader → Group
alone w = record { name = w.header.name; first = w.header.value; others = [] }

module _ (c : Library) where
  abbrev pub lowered : Bytes → Bytes
  lowered name = map c.to_lower name

  abbrev pub same_name : Bytes → Bytes → Bool
  same_name a b = bytes_eq (lowered a) (lowered b)

  unfoldable pub join_group : StableHeader → List Group → List Group
  join_group w [] = alone w ∷ []
  join_group w (g ∷ gs) =
      if same_name w.header.name g.name
      then record { name = w.header.name; first = w.header.value; others = g.first ∷ g.others } ∷ gs
      else alone w ∷ g ∷ gs

  -- Headers with one name and behind each other, taken together.
  unfoldable pub groups : List StableHeader → List Group
  groups [] = []
  groups (w ∷ ws) = join_group w (groups ws)

  abbrev pub all_lines : List Bytes → List Bytes
  all_lines [] = []
  all_lines (value ∷ values) = value_lines c value ++ all_lines values

  -- A line of the header block: the name in lower case, a colon, the lines of the first value with commas
  -- between them, and those of the other values with a comma in front of each.
  abbrev pub group_text : Group → Bytes
  group_text g =
      lowered g.name
      ++ (b':' ∷ (joined b',' (value_lines c g.first) ++ led b',' (all_lines g.others)))

  abbrev pub group_name : Group → Bytes
  group_name g = lowered g.name

  abbrev pub block_text : List StableHeader → Bytes
  block_text ws = joined b'\n' (map group_text (groups ws))

  abbrev pub signed_text : List StableHeader → Bytes
  signed_text ws = joined b';' (map group_name (groups ws))

  pub join_group-first :
      (w : StableHeader) (gs : List Group)
      → (others : List Bytes) × (rest : List Group) × (join_group w gs
          ≡ record { name = w.header.name; first = w.header.value; others = others } ∷ rest)
  unfolding join_group
  join_group-first w [] = ([], [], refl)
  join_group-first w (g ∷ gs) = elim (Bool-cases (same_name w.header.name g.name)) [
    | inl e ↦ (g.first ∷ g.others, gs, rw e refl)
    | inr e ↦ ([], g ∷ gs, rw e refl)
  ]

  -- what stands behind the value of the first header
  abbrev pub rest_block : List Group → Bytes
  rest_block [] = []
  rest_block (g ∷ gs) = led b',' (all_lines g.others) ++ led b'\n' (map group_text gs)

  abbrev pub rest_signed : List Group → Bytes
  rest_signed [] = []
  rest_signed (g ∷ gs) = led b';' (map group_name gs)

  -- the name and value of a first header
  abbrev pub head_text : StableHeader → Bytes
  head_text w = lowered w.header.name ++ (b':' ∷ joined b',' (value_lines c w.header.value))
