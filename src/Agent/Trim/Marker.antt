-- ===== src/Agent/Trim/Marker.antt =====
-- src/bin/vivarium-guest-agent/control.rs: the text of a trim request, and its markers.
use vivarium.Prelude.{
  ◌≡◌, ◌≢◌, refl, ◌∙◌, ap, sym, ◌↔◌, ◌||◌, Bool, true, false, Option, none, some, List, [], ◌∷◌,
  ◌++◌, Bytes, bytes_eq, bytes_eq_refl, bytes_eq_iff, any, All, Some, arith, Bool-cases,
  Option-cases, ◌⊎◌, inl, inr,
}
use vivarium.Net.Text.{has, is_empty, split, strip_suffix}
use vivarium.Net.Text.Laws.{split-append_sep, split-free, has-append_sep, has→split}
use vivarium.Agent.Trim.{
  newline, carriage_return, lines_of, trim_body, refuses, first_line, is_own, completes, wait,
  run_trim,
}

-- A line of its own: no line break in it.
abbrev pub IsLine : Bytes → Type 0
IsLine l = has newline l ≡ false

split-lines_of : (ls : List Bytes) → All IsLine ls → split newline (lines_of ls) ≡ ls ++ ([] ∷ [])
unfolding lines_of split
split-lines_of [] h = refl
split-lines_of (l ∷ ls) h =
    split-append_sep newline l (lines_of ls)
    ∙ rw (split-free newline l h.0, split-lines_of ls h.1) refl

refuses-IsLine :
    (mounts : List Bytes)
    → any (λ mount. is_empty mount || has newline mount) mounts ≡ false
    → All IsLine mounts
refuses-IsLine [] h = tt
refuses-IsLine (m ∷ ms) h = (ground arith, refuses-IsLine ms (ground arith))

-- The lines of a request that is not refused are its token and its mountpoints, in order, and
-- nothing else, where the token is one line.
pub trim_body-lines :
    (own : Bytes) (mounts : List Bytes)
    → has newline own ≡ false
    → refuses mounts ≡ false
    → split newline (trim_body own mounts) ≡ own ∷ mounts ++ ([] ∷ [])
unfolding trim_body refuses
trim_body-lines own mounts h k =
    split-lines_of (own ∷ mounts) (h, refuses-IsLine mounts (ground arith))

first_line_of :
    (text own : Bytes) (rest : List Bytes)
    → text ≢ []
    → split newline text ≡ own ∷ rest
    → strip_suffix (carriage_return ∷ []) own ≡ none
    → first_line text ≡ some own
unfolding first_line
first_line_of [] own rest h e k = absurd (h refl)
first_line_of (b ∷ bs) own rest h e k = rw (first_line, e, k) refl

line-ne-nil : (l rest : Bytes) → l ++ (newline ∷ rest) ≢ []
line-ne-nil [] rest h = cc
line-ne-nil (b ∷ l) rest h = cc

-- The first line of a request is its token.
first_line-trim_body :
    (own : Bytes) (mounts : List Bytes)
    → IsLine own
    → strip_suffix (carriage_return ∷ []) own ≡ none
    → first_line (trim_body own mounts) ≡ some own
unfolding trim_body lines_of
first_line-trim_body own mounts h k =
    first_line_of (own ++ (newline ∷ lines_of mounts)) own (split newline (lines_of mounts))
      (line-ne-nil own (lines_of mounts))
      (split-append_sep newline own (lines_of mounts) ∙ rw (split-free newline own h) refl) k

-- A marker that is the request of another token is passed over, whatever its mountpoints, and one
-- that is this trim's own request completes it, where the token is one line without a carriage
-- return at its end.
pub wait-marker :
    (own other : Bytes) (mounts : List Bytes) (looks : List (Option Bytes))
    → has newline other ≡ false
    → strip_suffix (carriage_return ∷ []) other ≡ none
    → ((other ≢ own) × (wait own (some (trim_body other mounts) ∷ looks) ≡ wait own looks))
      ⊎ ((other ≡ own) × (wait own (some (trim_body other mounts) ∷ looks) ≡ true))
unfolding wait
wait-marker own other mounts looks h k =
    let first = first_line-trim_body other mounts h k in
    elim (Bool-cases (bytes_eq other own)) [
      | inl same ↦ inr ((bytes_eq_iff other own).0 same, rw (first, same) refl)
      | inr apart ↦ inl (λ e. cc (sym apart ∙ (bytes_eq_iff other own).1 e), rw (first, apart) refl)
    ]

-- What one look must find.
abbrev pub IsOwn : Bytes → Option Bytes → Type 0
IsOwn own look = (marker : Bytes) × (look ≡ some marker) × (first_line marker ≡ some own)

completes-IsOwn : (own : Bytes) (look : Option Bytes) → completes own look ≡ true → IsOwn own look
completes-IsOwn own none h = absurd (cc h)
completes-IsOwn own (some marker) h = elim (Option-cases (first_line marker)) [
  | inl off ↦ absurd (cc (ap (is_own own) off))
  | inr (line, e) ↦
      (marker, refl, e ∙ ap some ((bytes_eq_iff line own).0 (sym (ap (is_own own) e) ∙ h)))
]

IsOwn-completes : (own : Bytes) (look : Option Bytes) → IsOwn own look → completes own look ≡ true
IsOwn-completes own look (marker, e, f) = rw (e, f, bytes_eq_refl own) refl

wait-Some :
    (own : Bytes) (looks : List (Option Bytes)) → wait own looks ≡ true → Some (IsOwn own) looks
unfolding wait
wait-Some own [] h = cc h
wait-Some own (look ∷ looks) h = elim (Bool-cases (completes own look)) [
  | inl hit ↦ inl (completes-IsOwn own look hit)
  | inr miss ↦ inr (wait-Some own looks (ground arith))
]

Some-wait :
    (own : Bytes) (looks : List (Option Bytes)) → Some (IsOwn own) looks → wait own looks ≡ true
unfolding wait
Some-wait own [] h = absurd h
Some-wait own (look ∷ looks) (inl hit) = rw (IsOwn-completes own look hit) refl
Some-wait own (look ∷ looks) (inr h) = ground (arith, Some-wait own looks h)

-- A mountpoint that is one line of a request.
abbrev pub IsMountLine : Bytes → Type 0
IsMountLine mount = (mount ≢ []) × ((front back : Bytes) → mount ≢ front ++ (newline ∷ back))

fits→IsMountLine :
    (mount : Bytes) → (is_empty mount || has newline mount) ≡ false → IsMountLine mount
fits→IsMountLine [] h = absurd (cc h)
fits→IsMountLine (b ∷ bs) h = (
  λ e. cc e,
  λ front back e. absurd (cc (sym h ∙ ap (has newline) e ∙ has-append_sep newline front back)),
)

IsMountLine→fits :
    (mount : Bytes) → IsMountLine mount → (is_empty mount || has newline mount) ≡ false
IsMountLine→fits [] (some_text, whole) = absurd (some_text refl)
IsMountLine→fits (b ∷ bs) (some_text, whole) = elim (Bool-cases (has newline (b ∷ bs))) [
  | inr e ↦ e
  | inl e ↦ let (front, back, same) = has→split newline (b ∷ bs) e in absurd (whole front back same)
]

all-IsMountLine :
    (mounts : List Bytes)
    → any (λ mount. is_empty mount || has newline mount) mounts ≡ false
    → All IsMountLine mounts
all-IsMountLine [] h = tt
all-IsMountLine (m ∷ ms) h = (fits→IsMountLine m (ground arith), all-IsMountLine ms (ground arith))

IsMountLine-any :
    (mounts : List Bytes)
    → All IsMountLine mounts
    → any (λ mount. is_empty mount || has newline mount) mounts ≡ false
IsMountLine-any [] h = refl
IsMountLine-any (m ∷ ms) (here, more) = rw (IsMountLine→fits m here) (IsMountLine-any ms more)

pub refuses_iff :
    (mounts : List Bytes) → (refuses mounts ≡ false) ↔ ((mounts ≢ []) × All IsMountLine mounts)
unfolding refuses
refuses_iff [] = (λ h. absurd (cc h), λ h. absurd (h.0 refl))
refuses_iff (m ∷ ms) =
    (λ h. (λ e. cc e, all-IsMountLine (m ∷ ms) h), λ h. IsMountLine-any (m ∷ ms) h.1)

-- A trim is acknowledged exactly when it names at least one mountpoint, none of them empty or with
-- a line break, the request reached its place, and some look found a marker that opens with this
-- trim's own token.
pub run_trim_iff :
    (staged renamed : Bool) (own : Bytes) (mounts : List Bytes) (looks : List (Option Bytes))
    → (run_trim staged renamed own mounts looks ≡ true) ↔ (
        (mounts ≢ [])
        × All IsMountLine mounts
        × (staged ≡ true)
        × (renamed ≡ true)
        × Some (IsOwn own) looks)
unfolding run_trim
run_trim_iff staged renamed own mounts looks = (
  λ h.
      let (named, whole) = (refuses_iff mounts).0 (ground arith) in
      (named, whole, ground arith, ground arith, wait-Some own looks (ground arith)),
  λ (named, whole, on, moved, found).
      rw ((refuses_iff mounts).1 (named, whole), on, moved) (Some-wait own looks found),
)
