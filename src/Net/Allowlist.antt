-- ===== src/Net/Allowlist.antt =====
-- src/net/allowlist.rs: the entries of `egress.allow`, and what they match.
pub mod Normal
pub mod Grants
pub mod Parse
pub mod Literals
use vivarium.Prelude.{
  ℕ, Bool, true, false, ◌&&◌, ◌||◌, not, Option, none, some, List, [], ◌∷◌, Bytes, codes, length,
  leb, ltb, ◌==◌, if◌then◌else◌, bytes_eq, map, any, all, Result, ok, err, ◌>>=◌, or_fail,
}
use vivarium.Net.Address.{IpAddr, IpNet, Addresses, addr_eq}
use vivarium.Net.Text.{
  strip_prefix, strip_suffix, has, is_empty, starts_with, ends_with, split, lower,
}

pub data AllowEntry : Type 0 where
  exact one_label many_labels : Bytes → AllowEntry
  addr : IpAddr → AllowEntry
  net : IpNet → AllowEntry

pub data AllowlistError : Type 0 where
  invalid_entry : Bytes → AllowlistError

abbrev pub dot : ℕ
dot = b'.'

abbrev pub is_ascii_alphanumeric : ℕ → Bool
is_ascii_alphanumeric c =
    (leb b'0' c && leb c b'9') || (leb b'A' c && leb c b'Z') || (leb b'a' c && leb c b'z')

abbrev pub label_char : ℕ → Bool
label_char c = is_ascii_alphanumeric c || c == b'-' || c == b'_'

unfoldable pub valid_label : Bytes → Bool
unfolding ends_with
valid_label label =
    not (is_empty label)
    && leb (length label) 63
    && not (starts_with b'-' label)
    && not (ends_with b'-' label)
    && all label_char label

abbrev pub or_else : Option Bytes → Bytes → Bytes
or_else none b = b
or_else (some a) b = a

-- Everything behind the optional trailing dot.
unfoldable pub normalize_undotted : Bytes → Option Bytes
normalize_undotted name =
    if is_empty name || ltb 253 (length name)
    then none
    else let lowered = map lower name in
      if all valid_label (split dot lowered) then some lowered else none

unfoldable pub normalize_name : Bytes → Option Bytes
normalize_name name = normalize_undotted (or_else (strip_suffix (dot ∷ []) name) name)

-- `AllowEntry::parse`.
unfoldable pub parse_entry : Addresses → Bytes → Result AllowlistError AllowEntry
parse_entry lib entry = elim (lib.parse_net entry) [
  | some n ↦ ok (AllowEntry.net n)
  | none ↦ elim (lib.parse_addr entry) [
    | some a ↦ ok (AllowEntry.addr a)
    | none ↦ elim (strip_prefix (codes "**.") entry) [
      | some suffix ↦ (do
        name ← or_fail (normalize_name suffix) (invalid_entry entry)
        ok (many_labels name))
      | none ↦ elim (strip_prefix (codes "*.") entry) [
        | some suffix ↦ (do
          name ← or_fail (normalize_name suffix) (invalid_entry entry)
          ok (one_label name))
        | none ↦ do name ← or_fail (normalize_name entry) (invalid_entry entry); ok (exact name)
      ]
    ]
  ]
]

-- `Allowlist::parse`: the first invalid entry refuses the list.
unfoldable pub parse : Addresses → List Bytes → Result AllowlistError (List AllowEntry)
parse lib [] = ok []
parse lib (e ∷ es) = do entry ← parse_entry lib e; entries ← parse lib es; ok (entry ∷ entries)

abbrev pub label_head : Option Bytes → Bool
label_head none = false
label_head (some label) = not (is_empty label) && not (has dot label)

abbrev pub labels_head : Option Bytes → Bool
labels_head none = false
labels_head (some labels) = not (is_empty labels)

-- `head.strip_suffix('.')` of what is left of the name in front of the suffix.
abbrev pub before_dot : Option Bytes → Option Bytes
before_dot none = none
before_dot (some head) = strip_suffix (dot ∷ []) head

unfoldable pub entry_matches_name : Bytes → AllowEntry → Bool
entry_matches_name name (exact e) = bytes_eq name e
entry_matches_name name (one_label s) = label_head (before_dot (strip_suffix s name))
entry_matches_name name (many_labels s) = labels_head (before_dot (strip_suffix s name))
entry_matches_name name (addr a) = false
entry_matches_name name (net n) = false

unfoldable pub matches_name : List AllowEntry → Bytes → Bool
matches_name entries name = elim (normalize_name name) [
  | none ↦ false
  | some n ↦ any (entry_matches_name n) entries
]

unfoldable pub entry_matches_addr : Addresses → IpAddr → AllowEntry → Bool
entry_matches_addr lib a (addr b) = addr_eq b a
entry_matches_addr lib a (net n) = lib.contains n a
entry_matches_addr lib a _ = false

pub matches_addr : Addresses → List AllowEntry → IpAddr → Bool
matches_addr lib entries a = any (entry_matches_addr lib a) entries

abbrev pub is_literal : AllowEntry → Bool
is_literal (addr a) = true
is_literal (net n) = true
is_literal _ = false

unfoldable pub literal_destinations : List AllowEntry → List AllowEntry
literal_destinations [] = []
literal_destinations (e ∷ es) =
    let rest = literal_destinations es in if is_literal e then e ∷ rest else rest
