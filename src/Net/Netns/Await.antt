-- ===== src/Net/Netns/Await.antt =====
-- src/net/netns.rs, `await_pair`: that the watch ends, and where it ends well.
use vivarium.Prelude.{
  ℕ, zero, suc, ◌+◌, ◌*◌, ◌/◌, ◌≤◌, ◌<◌, ◌≡◌, refl, ◌⊎◌, ◌↔◌, Bool, true, false, Option, none, some,
  leb, arith, Bool-cases, Result-cases, inl, inr, is_some, Result, ok, err,
}
use vivarium.Net.Netns.Pair.{
  Watch, Unreadable, PairError, pair_distinct, decided, await_from, await_pair, IsTicking, Joins,
  now, later, IsDistinct, IsJoined, pair_distinct-ok, IsDistinct-pair_distinct,
  IsJoined-pair_distinct,
}

module _ (watch : Watch) (limit : ℕ) where
  decided-is_some :
      (n : ℕ) (seen : Result Unreadable Bool) (more : Option (Result PairError (Unit {0})))
      → (limit ≤ watch.elapsed n) ⊎ (is_some more ≡ true)
      → is_some (decided watch limit n seen more) ≡ true
  decided-is_some n (ok true) more h = refl
  decided-is_some n (err why) more h = refl
  decided-is_some n (ok false) more (inl h) = ground arith
  decided-is_some n (ok false) more (inr h) = ground arith

  await_from-is_some :
      (fuel n : ℕ)
      → IsTicking watch
      → limit < 5 * (fuel + n)
      → is_some (await_from watch limit (suc fuel) n) ≡ true
  unfolding await_from
  await_from-is_some zero n tick h =
      decided-is_some n (pair_distinct (watch.links n)) none (inl (omega (arith, tick n)))
  await_from-is_some (suc fuel) n tick h =
      decided-is_some n (pair_distinct (watch.links n)) _
        (inr (await_from-is_some fuel (suc n) tick (omega arith)))

  -- Where each turn of the loop takes five milliseconds at least, the watch ends, however the
  -- links stand.
  pub await_pair-is_some : IsTicking watch → is_some (await_pair watch limit) ≡ true
  unfolding await_pair
  await_pair-is_some tick = await_from-is_some (suc (limit / 5)) 0 tick (omega arith)

  Joins-await :
      {n : ℕ} (fuel : ℕ)
      → Joins watch limit n
      → is_some (await_from watch limit fuel n) ≡ true
      → await_from watch limit fuel n ≡ some (ok tt)
  unfolding await_from
  Joins-await zero j h = absurd (cc h)
  Joins-await {n} (suc fuel) (now distinct) h =
      rw (await_from, IsDistinct-pair_distinct (watch.links n) distinct) refl
  Joins-await {n} (suc fuel) (later joined early j) h =
      let shared = IsJoined-pair_distinct (watch.links n) joined in
      let before : leb limit (watch.elapsed n) ≡ false = ground arith in
      rw (await_from, shared, before) (Joins-await fuel j (ground (arith, shared, before, h)))

  links-IsDistinct : (n : ℕ) → pair_distinct (watch.links n) ≡ ok true → IsDistinct (watch.links n)
  links-IsDistinct n e = elim (pair_distinct-ok (watch.links n) true e) [
    | inl (on, distinct) ↦ distinct
    | inr (off, joined) ↦ absurd (cc off)
  ]

  links-IsJoined : (n : ℕ) → pair_distinct (watch.links n) ≡ ok false → IsJoined (watch.links n)
  links-IsJoined n e = elim (pair_distinct-ok (watch.links n) false e) [
    | inl (off, distinct) ↦ absurd (cc off)
    | inr (on, joined) ↦ joined
  ]

  await-Joins : (fuel n : ℕ) → await_from watch limit fuel n ≡ some (ok tt) → Joins watch limit n
  unfolding await_from
  await-Joins zero n h = absurd (cc h)
  await-Joins (suc fuel) n h = elim (Result-cases (pair_distinct (watch.links n))) [
    | inr (why, e) ↦ absurd (ground (arith, e, h))
    | inl (true, e) ↦ now (links-IsDistinct n e)
    | inl (false, e) ↦ elim (Bool-cases (leb limit (watch.elapsed n))) [
      | inl f ↦ absurd (ground (arith, e, f, h))
      | inr f ↦
          later (links-IsJoined n e) (ground (arith, f))
            (await-Joins fuel (suc n) (ground (arith, e, f, h)))
    ]
  ]

  -- Where each turn of the loop takes five milliseconds at least, the watch ends well exactly
  -- where some turn reads both links of both namespaces and finds each pair apart, and every turn
  -- in front of it found one namespace shared, with the deadline not reached behind that reading.
  pub await_pair_iff :
      IsTicking watch → (await_pair watch limit ≡ some (ok tt)) ↔ Joins watch limit 0
  unfolding await_pair
  await_pair_iff tick = (
    await-Joins (suc (suc (limit / 5))) 0,
    λ j. Joins-await (suc (suc (limit / 5))) j (await_pair-is_some tick),
  )
