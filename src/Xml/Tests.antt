-- ===== src/Xml/Tests.antt =====
-- A search for text, and a node that ends.
use aws_c_auth.Common.{
  ℕ, ◌≤◌, Bool, true, false, ◌&&◌, [], ◌∷◌, ◌++◌, Option, none, some, Bytes, codes, length,
  length-append, all, ◌==◌, if◌then◌else◌, ◌≡◌, ◌≢◌, refl, sym, ap, ◌∙◌, arith, Bool-cases, inl,
  inr,
}
use aws_c_auth.Xml.{Parser, Node, closing_cmp, node_as_body}
use aws_c_auth.Xml.Ends.{Finds}
use aws_c_auth.Xml.Body.{no_tag, node_as_body-text}

abbrev pub starts : Bytes → Bytes → Bool
starts [] s = true
starts (x ∷ p) [] = false
starts (x ∷ p) (y ∷ s) = (x == y) && starts p s

abbrev pub seek : Bytes → Bytes → Option Bytes
seek [] p = if starts p [] then some [] else none
seek (x ∷ s) p = let rest = seek s p in if starts p (x ∷ s) then some (x ∷ s) else rest

starts-append : (p r : Bytes) → starts p (p ++ r) ≡ true
starts-append [] r = refl
starts-append (x ∷ p) r = ground (arith, starts-append p r)

starts-split : (p s : Bytes) → starts p s ≡ true → (r : Bytes) × (s ≡ p ++ r)
starts-split [] s e = (s, refl)
starts-split (x ∷ p) [] e = cc e
starts-split (x ∷ p) (y ∷ s) e =
    let (r, is) = starts-split p s (ground (arith, e)) in
    let same : y ≡ x = ground (arith, e) in (r, cc (is, same))

seek-starts : (s p : Bytes) → starts p s ≡ true → seek s p ≡ some s
seek-starts [] p e = rw e refl
seek-starts (x ∷ s) p e = rw e refl

seek-behind : (x : ℕ) (s p : Bytes) → starts p (x ∷ s) ≡ false → seek (x ∷ s) p ≡ seek s p
seek-behind x s p e = rw e refl

seek-found :
    (s p f : Bytes)
    → seek s p ≡ some f
    → (before rest : Bytes) × (s ≡ before ++ f) × (f ≡ p ++ rest)
seek-found [] p f e = elim (Bool-cases (starts p [])) [
  | inl h ↦
      let (r, is) = starts-split p [] h in
      let whole : [] ≡ f = cc (seek-starts [] p h, e) in ([], r, whole, sym whole ∙ is)
  | inr h ↦ cc (e, h)
]
seek-found (x ∷ s) p f e = elim (Bool-cases (starts p (x ∷ s))) [
  | inl h ↦
      let (r, is) = starts-split p (x ∷ s) h in
      let whole : x ∷ s ≡ f = cc (seek-starts (x ∷ s) p h, e) in ([], r, whole, sym whole ∙ is)
  | inr h ↦
      let (before, r, is, begins) = seek-found s p f (sym (seek-behind x s p h) ∙ e) in
      (x ∷ before, r, ap (λ l. x ∷ l) is, begins)
]

seek-nearest :
    (before p rest f : Bytes)
    → seek (before ++ (p ++ rest)) p ≡ some f
    → length (p ++ rest) ≤ length f
seek-nearest [] p rest f e =
    let whole : p ++ rest ≡ f = cc (seek-starts (p ++ rest) p (starts-append p rest), e) in
    omega (arith, ap length whole)
seek-nearest (x ∷ before) p rest f e =
    let s : Bytes = before ++ (p ++ rest) in
    elim (Bool-cases (starts p (x ∷ s))) [
      | inl h ↦
          let whole : x ∷ s ≡ f = cc (seek-starts (x ∷ s) p h, e) in
          omega (arith, ap length whole, length-append before (p ++ rest))
      | inr h ↦ seek-nearest before p rest f (sym (seek-behind x s p h) ∙ e)
    ]

seek-some : (before p rest : Bytes) → seek (before ++ (p ++ rest)) p ≢ none
seek-some [] p rest e = cc (seek-starts (p ++ rest) p (starts-append p rest), e)
seek-some (x ∷ before) p rest e =
    let s : Bytes = before ++ (p ++ rest) in
    elim (Bool-cases (starts p (x ∷ s))) [
      | inl h ↦ cc (seek-starts (x ∷ s) p h, e)
      | inr h ↦ seek-some before p rest (sym (seek-behind x s p h) ∙ e)
    ]

pub seek-Finds : Finds seek
seek-Finds = record { found = seek-found; finds = seek-some; nearest = seek-nearest }

abbrev parser : Parser
parser = record {
  doc = codes "<a><b>1</b></a></a>";
  depth = 1;
  max_depth = 20;
  error = false;
  stop_parsing = false;
}

abbrev node : Node
node = record { name = codes "AccessKeyId"; attributes = []; doc_at_body = []; processed = false }

text_free : no_tag (codes "AKID") ≡ true
unfolding codes all
text_free = refl

name_short : length node.name ≤ 256
unfolding codes
name_short = omega arith

as_body_example :
    (let doc = codes "AKID" ++ (closing_cmp node.name ++ codes "<b>") in
      (node_as_body seek (record parser { doc = doc }) (record node { doc_at_body = doc })).0
      ≡ (record parser { doc = codes "<b>" }, some (codes "AKID")))
as_body_example =
    node_as_body-text seek seek-Finds parser node (codes "AKID") (codes "<b>") text_free name_short
