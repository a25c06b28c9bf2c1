-- ===== src/Agent/Trim.antt =====
-- src/bin/vivarium-guest-agent/control.rs, `run_trim`: the request for the fstrim unit and the wait
-- for its completion marker.
pub mod Marker
pub mod Acknowledged
use vivarium.Prelude.{
  ℕ, ◌≡◌, ◌≢◌, refl, ◌∙◌, ap, sym, ◌↔◌, ◌&&◌, ◌||◌, not, Bool, true, false, Option, none, some,
  List, [], ◌∷◌, ◌++◌, Bytes, codes, bytes_eq, bytes_eq_iff, any, All, Some, arith, if◌then◌else◌,
  Bool-cases, inl, inr,
}
use vivarium.Net.Text.{has, is_empty, split, strip_suffix}
use vivarium.Net.Text.Laws.{split-append_sep, split-free}

abbrev pub newline : ℕ
newline = 10

abbrev pub carriage_return : ℕ
carriage_return = 13

-- `# <process id>-<sequence number>`; `show` is the decimal text of a number.
unfoldable pub token : (ℕ → Bytes) → (pid sequence : ℕ) → Bytes
token show pid sequence = codes "# " ++ (show pid ++ (codes "-" ++ show sequence))

unfoldable pub lines_of : List Bytes → Bytes
lines_of [] = []
lines_of (l ∷ ls) = l ++ (newline ∷ lines_of ls)

unfoldable pub trim_body : Bytes → List Bytes → Bytes
trim_body own mountpoints = lines_of (own ∷ mountpoints)

unfoldable pub refuses : List Bytes → Bool
refuses mountpoints =
    is_empty mountpoints || any (λ mount. is_empty mount || has newline mount) mountpoints

abbrev pub without_return : Option Bytes → Bytes → Bytes
without_return none line = line
without_return (some stripped) line = stripped

abbrev pub head_line : List Bytes → Option Bytes
head_line [] = none
head_line (l ∷ ls) = some (without_return (strip_suffix (carriage_return ∷ []) l) l)

-- `lines().next()`.
unfoldable pub first_line : Bytes → Option Bytes
first_line [] = none
first_line (b ∷ bs) = head_line (split newline (b ∷ bs))

abbrev pub is_own : Bytes → Option Bytes → Bool
is_own own none = false
is_own own (some line) = bytes_eq line own

-- One look: there is no marker, or one with a text, which the look takes away.
abbrev pub completes : Bytes → Option Bytes → Bool
completes own none = false
completes own (some marker) = is_own own (first_line marker)

-- The looks up to the deadline.
unfoldable pub wait : Bytes → List (Option Bytes) → Bool
wait own [] = false
wait own (look ∷ looks) = if completes own look then true else wait own looks

-- `run_trim`, given whether the request could be staged and renamed, and what each look finds.
unfoldable pub run_trim : (staged renamed : Bool) → Bytes → List Bytes → List (Option Bytes) → Bool
unfolding wait refuses
run_trim staged renamed own mountpoints looks =
    if refuses mountpoints
    then false
    else if not staged
    then false
    else if not renamed
    then false
    else wait own looks
