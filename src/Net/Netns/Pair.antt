-- ===== src/Net/Netns/Pair.antt =====
-- src/net/netns.rs: the watch on the namespace pair (`pair_distinct`, `await_pair`). What each turn
-- of the loop reads of the links and of the clock is a parameter. The loop is on fuel: a turn for
-- each five milliseconds of the timeout, and two more, are enough.
use vivarium.Prelude.{
  ℕ, zero, suc, ◌-◌, ◌*◌, ◌/◌, ◌^◌, ◌≤◌, ◌<◌, ◌≡◌, ◌≢◌, ◌⊎◌, inl, inr, refl, sym, ap, ◌∙◌, Bool,
  true, false, not, Option, none, some, Bytes, bytes_eq, bytes_eq_sound, bytes_eq_refl,
  bytes_eq_iff, arith, Bool-cases, Option-cases, Result-cases, leb, ltb, if◌then◌else◌, Result, ok,
  err, ◌>>=◌, or_fail,
}

-- The targets of the links of one namespace: none where the link cannot be read.
pub record Links : Type 0 where
  pub own : Option Bytes
  pub held : Option Bytes

pub record Observed : Type 0 where
  pub user : Links
  pub net : Links

pub data Unreadable : Type 0 where
  unreadable : Unreadable

-- Whether the two links of one namespace differ.
abbrev pub differ : Links → Result Unreadable Bool
differ links = do
  own ← or_fail links.own unreadable
  held ← or_fail links.held unreadable
  ok (not (bytes_eq own held))

-- An equal pair of links ends the loop over the namespaces.
abbrev pub and_then : Bool → Result Unreadable Bool → Result Unreadable Bool
and_then false rest = ok false
and_then true rest = rest

unfoldable pub pair_distinct : Observed → Result Unreadable Bool
unfolding bytes_eq
pair_distinct now = do user ← differ now.user; and_then user (differ now.net)

pub data PairError : Type 0 where
  holder_exited : PairError
  timeout : (waited_ms : ℕ) → PairError

-- What the turns of the loop read, in milliseconds: the links, the time at the test of the
-- deadline, and the time that a refusal carries.
pub record Watch : Type 0 where
  pub links : ℕ → Observed
  pub elapsed : ℕ → ℕ
  pub waited : ℕ → ℕ

abbrev pub saturated : ℕ → ℕ
saturated ms = if ltb ms (2 ^ 64) then ms else 2 ^ 64 - 1

module _ (watch : Watch) (limit : ℕ) where
  abbrev pub decided :
      ℕ
      → Result Unreadable Bool
      → Option (Result PairError (Unit {0}))
      → Option (Result PairError (Unit {0}))
  decided n (ok true) later = some (ok tt)
  decided n (err why) later = some (err holder_exited)
  decided n (ok false) later =
      if leb limit (watch.elapsed n)
      then some (err (timeout (saturated (watch.waited n))))
      else later

  unfoldable pub await_from : ℕ → ℕ → Option (Result PairError (Unit {0}))
  unfolding pair_distinct
  await_from zero n = none
  await_from (suc fuel) n =
      let later = await_from fuel (suc n) in decided n (pair_distinct (watch.links n)) later

  unfoldable pub await_pair : Option (Result PairError (Unit {0}))
  unfolding await_from
  await_pair = await_from (suc (suc (limit / 5))) 0

-- The sleep of each turn takes five milliseconds at least.
abbrev pub IsTicking : Watch → Type 0
IsTicking watch = (n : ℕ) → 5 * n ≤ watch.elapsed n

-- Two links that can be read, to two targets or to one.
abbrev pub IsApart : Links → Type 0
IsApart links =
    (own : Bytes) × (held : Bytes) × (links.own ≡ some own)
    × (links.held ≡ some held)
    × (own ≢ held)

abbrev pub IsShared : Links → Type 0
IsShared links = (target : Bytes) × (links.own ≡ some target) × (links.held ≡ some target)

-- Both namespaces are the holder's own.
abbrev pub IsDistinct : Observed → Type 0
IsDistinct seen = IsApart seen.user × IsApart seen.net

-- One namespace is still shared, as far as the reading goes.
abbrev pub IsJoined : Observed → Type 0
IsJoined seen = IsShared seen.user ⊎ (IsApart seen.user × IsShared seen.net)

-- From a turn on, one namespace is shared at every turn, and the deadline not reached behind it,
-- until both are distinct at one.
pub data Joins (watch : Watch) (limit : ℕ) : ℕ → Type 0 where
  now : {n : ℕ} → IsDistinct (watch.links n) → Joins watch limit n
  later :
      {n : ℕ}
      → IsJoined (watch.links n)
      → watch.elapsed n < limit
      → Joins watch limit (suc n)
      → Joins watch limit n

differ-ok :
    (links : Links) (b : Bool)
    → differ links ≡ ok b
    → ((b ≡ true) × IsApart links) ⊎ ((b ≡ false) × IsShared links)
unfolding bytes_eq
differ-ok links b h = elim (Option-cases links.own) [
  | inl e ↦ absurd (cc (rw (e, differ) at h))
  | inr (own, e) ↦ elim (Option-cases links.held) [
    | inl f ↦ absurd (cc (rw (e, f, differ) at h))
    | inr (held, f) ↦ elim (Bool-cases (bytes_eq own held)) [
      | inl same ↦
          let one = bytes_eq_sound own held same in
          inr (ground (arith, rw (e, f, differ, same) at h), (held, e ∙ ap some one, f))
      | inr apart ↦ inl (
        ground (arith, rw (e, f, differ, apart) at h),
        (own, held, e, f, λ one. cc (sym apart ∙ (bytes_eq_iff own held).1 one)),
      )
    ]
  ]
]

IsApart-differ : (links : Links) → IsApart links → differ links ≡ ok true
IsApart-differ links (own, held, e, f, apart) = elim (Bool-cases (bytes_eq own held)) [
  | inl same ↦ absurd (apart (bytes_eq_sound own held same))
  | inr other ↦ rw (differ, e, f, other) refl
]

IsShared-differ : (links : Links) → IsShared links → differ links ≡ ok false
IsShared-differ links (target, e, f) = rw (differ, e, f, bytes_eq_refl target) refl

-- What the code tells of the pair, read off the links.
pub pair_distinct-ok :
    (seen : Observed) (b : Bool)
    → pair_distinct seen ≡ ok b
    → ((b ≡ true) × IsDistinct seen) ⊎ ((b ≡ false) × IsJoined seen)
unfolding pair_distinct
pair_distinct-ok seen b h = elim (Result-cases (differ seen.user)) [
  | inr (why, e) ↦ absurd (cc (rw (pair_distinct, e) at h))
  | inl (false, e) ↦ elim (differ-ok seen.user false e) [
    | inl (off, apart) ↦ absurd (cc off)
    | inr (on, shared) ↦ inr (ground (arith, rw (pair_distinct, e) at h), inl shared)
  ]
  | inl (true, e) ↦ elim (differ-ok seen.user true e) [
    | inr (off, shared) ↦ absurd (cc off)
    | inl (on, apart) ↦ elim (differ-ok seen.net b (rw (pair_distinct, e) at h)) [
      | inl (is_true, other) ↦ inl (is_true, (apart, other))
      | inr (is_false, shared) ↦ inr (is_false, inr (apart, shared))
    ]
  ]
]

pub IsDistinct-pair_distinct : (seen : Observed) → IsDistinct seen → pair_distinct seen ≡ ok true
unfolding pair_distinct
IsDistinct-pair_distinct seen (user, net) =
    rw (pair_distinct, IsApart-differ seen.user user, IsApart-differ seen.net net) refl

pub IsJoined-pair_distinct : (seen : Observed) → IsJoined seen → pair_distinct seen ≡ ok false
unfolding pair_distinct
IsJoined-pair_distinct seen (inl shared) = rw (pair_distinct, IsShared-differ seen.user shared) refl
IsJoined-pair_distinct seen (inr (apart, shared)) =
    rw (pair_distinct, IsApart-differ seen.user apart, IsShared-differ seen.net shared) refl
