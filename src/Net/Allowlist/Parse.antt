-- ===== src/Net/Allowlist/Parse.antt =====
-- src/net/allowlist.rs: the names in a parsed allowlist, and the spellings of a query.
use vivarium.Prelude.{
  ◌≡◌, inl, inr, none, List, [], ◌∷◌, ◌++◌, Bytes, arith, map, All, ok, codes, Option-cases,
}
use vivarium.Net.Address.{Addresses}
use vivarium.Net.Text.{strip_suffix, strip_prefix, lower}
use vivarium.Net.Text.Laws.{strip_suffix-append}
use vivarium.Net.Allowlist.Normal.{IsNormal, normalize_name-IsNormal, normalize_name-lower}
use vivarium.Net.Allowlist.{
  AllowEntry, exact, one_label, many_labels, addr, net, dot, parse_entry, parse, normalize_name,
  matches_name,
}

-- The name of an entry is in its normal form.
abbrev pub EntryIsNormal : AllowEntry → Type 0
EntryIsNormal (exact n) = IsNormal n
EntryIsNormal (one_label n) = IsNormal n
EntryIsNormal (many_labels n) = IsNormal n
EntryIsNormal (addr a) = Unit
EntryIsNormal (net n) = Unit

parse_entry-IsNormal :
    (lib : Addresses) (bs : Bytes) (e : AllowEntry) → parse_entry lib bs ≡ ok e → EntryIsNormal e
unfolding parse_entry
parse_entry-IsNormal lib bs (exact n) h = normalize_name-IsNormal bs n (ground arith)
parse_entry-IsNormal lib bs (one_label n) h = elim (Option-cases (strip_prefix (codes "*.") bs)) [
  | inl missing ↦ absurd (ground arith)
  | inr (s, found) ↦ normalize_name-IsNormal s n (ground arith)
]
parse_entry-IsNormal lib bs (many_labels n) h =
    elim (Option-cases (strip_prefix (codes "**.") bs)) [
      | inl missing ↦ absurd (ground arith)
      | inr (s, found) ↦ normalize_name-IsNormal s n (ground arith)
    ]
parse_entry-IsNormal lib bs (addr a) h = tt
parse_entry-IsNormal lib bs (net n) h = tt

-- Every name in a parsed allowlist is in its normal form, whatever was declared.
pub parse-IsNormal :
    (lib : Addresses) (declared : List Bytes) (es : List AllowEntry)
    → parse lib declared ≡ ok es
    → All EntryIsNormal es
unfolding parse
parse-IsNormal lib [] [] h = tt
parse-IsNormal lib [] (e ∷ es) h = absurd (cc h)
parse-IsNormal lib (d ∷ ds) [] h = absurd (ground arith)
parse-IsNormal lib (d ∷ ds) (e ∷ es) h =
    (parse_entry-IsNormal lib d e (ground arith), parse-IsNormal lib ds es (ground arith))

-- A queried name matches as its lowercase form does.
pub matches_name-lower :
    (es : List AllowEntry) (name : Bytes) → matches_name es (map lower name) ≡ matches_name es name
unfolding matches_name
matches_name-lower es name = rw (normalize_name-lower name, matches_name)

normalize_name-dot :
    (name : Bytes)
    → strip_suffix (dot ∷ []) name ≡ none
    → normalize_name (name ++ dot ∷ []) ≡ normalize_name name
unfolding normalize_name
normalize_name-dot name h = rw (strip_suffix-append name (dot ∷ []), h)

-- A dot behind a queried name that has none makes no difference to the match.
pub matches_name-dot :
    (es : List AllowEntry) (name : Bytes)
    → strip_suffix (dot ∷ []) name ≡ none
    → matches_name es (name ++ dot ∷ []) ≡ matches_name es name
unfolding matches_name
matches_name-dot es name h = rw (normalize_name-dot name h, matches_name)
