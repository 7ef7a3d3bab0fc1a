-- ===== src/Kafka/Kerberos/Principal.antt =====
-- What a principal is split into (kafkamq/kerberos_samara.go, parsePrincipal).
use Prim.Native.Char.{Char, code}
use Prim.Native.String.{[] as no_text, ◌∷◌ as ◌⊳◌}
use Prim.Native.String.append
use kmq_utils.Prelude.{
  ◌==◌, ◌≡◌, refl, ap, ◌∙◌, false, String, none, some, List, [], ◌∷◌, str_append, arith,
}
use kmq_utils.Kafka.Kerberos.{split_at, prepend, two_parts, parse_principal, at_sign}

-- No character of a text is '@'.
unfoldable pub IsPlain : String → Type 0
IsPlain no_text = Unit
IsPlain (c ⊳ s) = ((code c == at_sign) ≡ false) × IsPlain s

split_at-plain : (s : String) → IsPlain s → split_at s ≡ s ∷ []
unfolding split_at prepend IsPlain
split_at-plain no_text p = refl
split_at-plain (c ⊳ s) p = rw p.0 (ap (prepend c) (split_at-plain s p.1))

-- A text with an '@' behind a first part.
abbrev pub joined : String → String → String
joined u r = str_append u (str_append "@" r)

split_at-at : (r : String) → split_at (str_append "@" r) ≡ no_text ∷ split_at r
unfolding split_at
split_at-at r = ap split_at (append.cons "@" no_text r ∙ ap (λ s. "@" ⊳ s) (append.nil r))

split_at-joined : (u r : String) → IsPlain u → split_at (joined u r) ≡ u ∷ split_at r
unfolding split_at prepend IsPlain
split_at-joined no_text r p = ap split_at (append.nil (str_append "@" r)) ∙ split_at-at r
split_at-joined (c ⊳ u) r p =
    ap split_at (append.cons c u (str_append "@" r))
    ∙ rw p.0 (ap (prepend c) (split_at-joined u r p.1))

prepend-some : (c : Char) (xs : List String) → prepend c xs ≡ [] → ⊥
unfolding prepend
prepend-some c [] h = cc
prepend-some c (x ∷ xs) h = cc

split_at-some : (s : String) → split_at s ≡ [] → ⊥
unfolding split_at
split_at-some no_text h = cc
split_at-some (c ⊳ s) h = ground (arith, prepend-some c (split_at s), h)

many : (u m : String) (xs : List String) → (xs ≡ [] → ⊥) → two_parts (u ∷ m ∷ xs) ≡ none
unfolding two_parts
many u m [] h = elim (h refl) [ ]
many u m (x ∷ xs) h = refl

-- A principal is the text of its two parts with one '@' between them, neither of which holds another:
-- such a text is parsed into the parts, a text without an '@' is refused, and so is one with two of
-- them or more.
pub parse_principal-joined :
    (u m r : String)
    → IsPlain u
    → IsPlain m
    → (parse_principal (joined u m) ≡ some (u, m))
      × (parse_principal u ≡ none)
      × (parse_principal (joined u (joined m r)) ≡ none)
unfolding parse_principal two_parts
parse_principal-joined u m r p q = (
  ap two_parts (split_at-joined u m p ∙ ap (λ xs. u ∷ xs) (split_at-plain m q)),
  ap two_parts (split_at-plain u p),
  ap two_parts (split_at-joined u (joined m r) p ∙ ap (λ xs. u ∷ xs) (split_at-joined m r q))
      ∙ many u m (split_at r) (split_at-some r),
)
