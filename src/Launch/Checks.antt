-- ===== src/Launch/Checks.antt =====
-- src/launch/spec.rs: the tests that the validation of a launch contract is made of.
pub mod Entries
pub mod Facts
use vivarium.Prelude.{
  ℕ, zero, suc, ◌+◌, ◌-◌, ◌^◌, Bool, true, false, ◌&&◌, ◌||◌, not, Option, none, some, List, [],
  ◌∷◌, ◌++◌, Bytes, codes, length, ltb, leb, ◌==◌, if◌then◌else◌, bytes_eq, any, all, Result, ok,
  err, ◌>>=◌, ◌>>◌, guard, is_some,
}
use vivarium.Net.Text.{is_empty, strip_prefix}
use vivarium.Launch.Spec.{DescriptorBudget}
use vivarium.Launch.Mounts.{components, is_absolute, unreserved, overlaps}
use vivarium.Launch.Paths.{parent, parts_eq}

-- What the validation refuses with, of `LaunchError`. A message is its text.
pub data LaunchError : Type 0 where
  invalid_spec invalid_runtime_path io : Bytes → LaunchError
  schema_skew : (record_version current : ℕ) → LaunchError

abbrev pub Check : Type 0
Check = Result LaunchError (Unit {0})

-- Tests in order: the first that fails is the answer.
unfoldable pub all_ok : List Check → Check
all_ok [] = ok tt
all_ok (test ∷ tests) = test >> all_ok tests

abbrev pub effective_worker_count : DescriptorBudget → ℕ
effective_worker_count budget = if budget.worker_pool_size == 0 then 1 else budget.worker_pool_size

abbrev pub pinned_fixed_reserve : ℕ
pinned_fixed_reserve = 609

-- `DescriptorBudget::guest_allowance`: `checked_add` and `checked_sub` of 64 bits.
unfoldable pub guest_allowance : DescriptorBudget → Result LaunchError ℕ
guest_allowance budget = do
  guard (ltb reserve (2 ^ 64)) (invalid_spec (codes "descriptor reserve overflow"))
  guard (leb reserve budget.limit && ltb 0 (budget.limit - reserve))
      (invalid_spec (codes "descriptor limit does not exceed reserve"))
  ok (budget.limit - reserve)
  where
    reserve : ℕ
    reserve = pinned_fixed_reserve + effective_worker_count budget

abbrev pub is_digit : ℕ → Bool
is_digit c = leb b'0' c && leb c b'9'

abbrev pub is_upper : ℕ → Bool
is_upper c = leb b'A' c && leb c b'Z'

abbrev pub is_hex_digit : ℕ → Bool
is_hex_digit c = is_digit c || (leb b'A' c && leb c b'F') || (leb b'a' c && leb c b'f')

-- The octets of a text, three bytes each but for the last.
abbrev pub octets : Bytes → Bool
octets [] = true
octets (a ∷ []) = false
octets (a ∷ b ∷ []) = is_hex_digit a && is_hex_digit b
octets (a ∷ b ∷ c ∷ more) =
    let rest = octets more in is_hex_digit a && is_hex_digit b && c == b':' && rest

unfoldable pub is_mac_address : Bytes → Bool
is_mac_address mac = length mac == 17 && octets mac

-- Where the search for a sentinel stands: in front of the opening sign, or behind one, with what
-- has been read since.
pub data Search : Type 0 where
  outside : Search
  behind : (nonempty sentinel : Bool) → Search

abbrev pub sentinel_char : ℕ → Bool
sentinel_char b = is_upper b || is_digit b || b == b'_'

-- The loop of `contains_unresolved_token`, in one pass: a closing sign that ends no sentinel opens
-- the next.
unfoldable pub unresolved_from : Search → Bytes → Bool
unresolved_from state [] = false
unresolved_from outside (b ∷ bs) =
    let opened = unresolved_from (behind false true) bs in
    let later = unresolved_from outside bs in if b == b'@' then opened else later
unresolved_from (behind nonempty sentinel) (b ∷ bs) =
    let opened = unresolved_from (behind false true) bs in
    let longer = unresolved_from (behind true (sentinel && sentinel_char b)) bs in
    if b == b'@' then (nonempty && sentinel) || opened else longer

unfoldable pub contains_unresolved_token : Bytes → Bool
unfolding unresolved_from
contains_unresolved_token rendered = unresolved_from outside rendered

unfoldable pub require_absolute_resolved : Bytes → Check
unfolding components contains_unresolved_token
require_absolute_resolved path = do
  guard (is_absolute path && not (any (bytes_eq (codes "..")) (components path)))
      (invalid_runtime_path (codes "path must be absolute and normalized"))
  guard (not (contains_unresolved_token path)) (invalid_runtime_path (codes "unresolved token"))

abbrev pub is_tag_index : Option Bytes → Bool
is_tag_index none = false
is_tag_index (some index) = not (is_empty index) && all is_digit index

unfoldable pub is_mount_tag : Bytes → Bool
unfolding strip_prefix
is_mount_tag tag = is_tag_index (strip_prefix (codes "mnt") tag)

abbrev pub is_parent : Option (List Bytes) → Bytes → Bool
is_parent none root = false
is_parent (some front) root = is_absolute root && parts_eq front (components root)

-- The path is absolute here, and so its parent.
unfoldable pub require_exact_child : Bytes → Bytes → Check
unfolding require_absolute_resolved parent components
require_exact_child path root = do
  require_absolute_resolved path
  guard (is_parent (parent path) root)
      (invalid_runtime_path (codes "runtime artifact must be an exact child"))

-- The loop of `is_encoded_entry`: how many digits of an escape are still to come.
unfoldable pub encoded_from : ℕ → Bytes → Bool
encoded_from zero [] = true
encoded_from (suc n) [] = false
encoded_from zero (b ∷ bs) =
    let escape = encoded_from 2 bs in
    let text = encoded_from zero bs in if b == b'%' then escape else unreserved b && text
encoded_from (suc n) (b ∷ bs) =
    let rest = encoded_from n bs in (is_digit b || (leb b'A' b && leb b b'F')) && rest

unfoldable pub is_encoded_entry : Bytes → Bool
unfolding encoded_from bytes_eq
is_encoded_entry entry =
    not (is_empty entry || bytes_eq entry (codes ".") || bytes_eq entry (codes ".."))
    && encoded_from zero entry

unfoldable pub reject_session_source : Bytes → Bytes → Check
reject_session_source source runtime_root =
    guard (not (any (overlaps source) (codes "/tmp" ∷ codes "/var/tmp" ∷ runtime_root ∷ [])))
      (invalid_spec (codes "share source violates N24"))
