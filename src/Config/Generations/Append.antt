-- ===== src/Config/Generations/Append.antt =====
-- src/config/generations.rs: the profile behind an `append`.
use vivarium.Prelude.{
  ℕ, ◌≡◌, refl, ◌∙◌, sym, ap, Bool, true, false, none, some, List, [], ◌∷◌, Bytes, arith,
  Bool-cases, Option-cases, inl, inr, ok, err,
}
use vivarium.Config.Files.{lookup, remove, put}
use vivarium.Config.Generations.{
  GenerationRecord, Profile, Publication, unpublished, unflushed, published, registered, refused,
  Disk, root, next_number, publish, set_current, returning, with_link, append_root, append_record,
  append_digest, append,
}
use vivarium.Config.Generations.Numbers.{IsNumbered, next_number-free}
use vivarium.Config.Generations.Labels.{Registration-cases}

-- The profile with one more generation, which `current` names.
abbrev pub extended : ℕ → Bytes → Bytes → Bytes → Profile → Profile
extended n target rendered lock p = record {
  links = put n target p.links;
  records = put n rendered p.records;
  locks = put n lock p.locks;
  current = some n;
}

set_current-ok :
    (outcome : Publication) (p : Profile) (n m : ℕ)
    → (returning n (set_current outcome p n)).0 ≡ ok m
    → (m ≡ n) × ((returning n (set_current outcome p n)).1 ≡ record p { current = some n })
unfolding set_current
set_current-ok unpublished p n m h = absurd (cc h)
set_current-ok unflushed p n m h = absurd (cc h)
set_current-ok published p n m h = (ground arith, refl)

publish-ok :
    {A : Type 0} (outcome : Publication) (n : ℕ) (a : A) (files : List (ℕ × A))
    → (publish outcome n a files).0 ≡ true
    → (publish outcome n a files).1 ≡ put n a files
publish-ok unpublished n a files h = absurd (cc h)
publish-ok unflushed n a files h = absurd (cc h)
publish-ok published n a files h = refl

module _ (disk : Disk) where
  append_root-ok :
      (n m : ℕ) (target : Bytes) (p : Profile)
      → (append_root disk n target p).0 ≡ ok m
      → (m ≡ n)
        × ((append_root disk n target p).1
            ≡ record p { links = put n target p.links; current = some n })
  unfolding append_root
  append_root-ok n m target p h = elim (Registration-cases disk.registration) [
    | inl e ↦
        rw (append_root, e)
          (set_current-ok disk.pointer (with_link registered n target p) n m
            (rw (append_root, e) at h))
    | inr (left, e) ↦ absurd (cc (rw (append_root, e) at h))
  ]

  append_record-ok :
      (n m : ℕ) (r : GenerationRecord) (p : Profile)
      → (append_record disk n r p).0 ≡ ok m
      → (rendered : Bytes) × (disk.to_vec r ≡ some rendered)
        × (m ≡ n)
        × ((append_record disk n r p).1 ≡ record p {
          links = put n r.store_path p.links;
          records = put n rendered p.records;
          current = some n;
        })
  unfolding append_record
  append_record-ok n m r p h = elim (Option-cases (disk.to_vec r)) [
    | inl e ↦ absurd (cc (rw (append_record, e) at h))
    | inr (rendered, e) ↦
        let step = publish disk.record_publication n rendered p.records in
        elim (Bool-cases step.0) [
          | inr failed ↦ absurd (cc (rw (append_record, e, failed) at h))
          | inl good ↦
              let done =
                append_root-ok n m r.store_path (record p { records = step.1 })
                  (rw (append_record, e, good) at h) in
              let stored = publish-ok disk.record_publication n rendered p.records good in
              (
                rendered,
                e,
                done.0,
                rw (append_record, e, good)
                    (done.1
                      ∙ ap
                          (λ files. record p {
                            links = put n r.store_path p.links;
                            records = files;
                            current = some n;
                          })
                          stored),
              )
        ]
  ]

  append_digest-ok :
      (n m : ℕ) (r : GenerationRecord) (lock : Bytes) (p : Profile)
      → (append_digest disk n r lock p).0 ≡ ok m
      → (d : Bytes) × (rendered : Bytes) × (disk.digest lock ≡ some d)
        × (disk.to_vec (record r { lock_digest = d }) ≡ some rendered)
        × (m ≡ n)
        × ((append_digest disk n r lock p).1 ≡ record p {
          links = put n r.store_path p.links;
          records = put n rendered p.records;
          current = some n;
        })
  unfolding append_digest
  append_digest-ok n m r lock p h = elim (Option-cases (disk.digest lock)) [
    | inl e ↦ absurd (cc (rw (append_digest, e) at h))
    | inr (d, e) ↦
        let (rendered, f, same, done) =
          append_record-ok n m (record r { lock_digest = d }) p (rw (append_digest, e) at h) in
        (d, rendered, e, f, same, rw (append_digest, e) done)
  ]

  append-step :
      (p : Profile) (r : GenerationRecord) (lock : Bytes)
      → disk.directories ≡ true
      → (publish disk.lock_publication (next_number p) lock p.locks).0 ≡ true
      → append disk p r lock
        ≡ append_digest disk
            (next_number p)
            r
            lock
            (record p { locks = (publish disk.lock_publication (next_number p) lock p.locks).1 })
  unfolding append
  append-step p r lock made good = simp (made, good)

  -- Where no known number is the largest of a `u64`, an append that succeeds gives out a number
  -- that neither directory knew, and leaves the profile with that generation and no other change:
  -- its root at the build, its record with the digest of the very lock that is retained, and
  -- `current` on it.
  pub append-ok :
      (p : Profile) (r : GenerationRecord) (lock : Bytes) (m : ℕ)
      → IsNumbered p
      → (append disk p r lock).0 ≡ ok m
      → (lookup m p.links ≡ none)
        × (lookup m p.records ≡ none)
        × ((d : Bytes) × (rendered : Bytes) × (disk.digest lock ≡ some d)
            × (disk.to_vec (record r { lock_digest = d }) ≡ some rendered)
            × ((append disk p r lock).1 ≡ extended m r.store_path rendered lock p))
  unfolding append
  append-ok p r lock m small h = elim (Bool-cases disk.directories) [
    | inr none_made ↦ absurd (cc (simp none_made at h))
    | inl made ↦ elim (Bool-cases step.0) [
      | inr failed ↦ absurd (cc (simp (made, failed) at h))
      | inl good ↦
          let whole = append-step p r lock made good in
          let (d, rendered, e, f, same, done) =
            append_digest-ok n m r lock q (sym (ap (λ x. x.0) whole) ∙ h) in
          let stored = publish-ok disk.lock_publication n lock p.locks good in
          (
            rw same free.0,
            rw same free.1,
            (
              d,
              rendered,
              e,
              f,
              ap (λ x. x.1) whole
                  ∙ done
                  ∙ ap (λ files. record (extended n r.store_path rendered lock p) { locks = files })
                      stored
                  ∙ ap (λ k. extended k r.store_path rendered lock p) (sym same),
            ),
          )
    ]
  ]
    where
      n : ℕ
      n = next_number p

      free : (lookup n p.links ≡ none) × (lookup n p.records ≡ none)
      free = next_number-free p n small (omega arith)

      step : Bool × List (ℕ × Bytes)
      step = publish disk.lock_publication n lock p.locks

      q : Profile
      q = record p { locks = step.1 }

remove-absent :
    {A : Type 0} (n : ℕ) (files : List (ℕ × A)) → lookup n files ≡ none → remove n files ≡ files
unfolding lookup remove
remove-absent n [] h = refl
remove-absent n ((k, a) ∷ files) h = ground (arith, remove-absent n files)

remove-put :
    {A : Type 0} (n : ℕ) (a : A) (files : List (ℕ × A))
    → lookup n files ≡ none
    → remove n (put n a files) ≡ files
unfolding remove put
remove-put n a files h = ground (arith, remove-absent n files h)

-- Where no known number is the largest of a `u64`, an append whose registration is refused without
-- a link, everything before it having worked and both removals working, leaves links, records and
-- `current` as they were, and the next number with them.
pub append_refused :
    (disk : Disk) (p : Profile) (r : GenerationRecord) (lock d rendered : Bytes)
    → IsNumbered p
    → disk.directories ≡ true
    → disk.lock_publication ≡ published
    → disk.digest lock ≡ some d
    → disk.to_vec (record r { lock_digest = d }) ≡ some rendered
    → disk.record_publication ≡ published
    → disk.registration ≡ refused false
    → disk.lock_removed ≡ true
    → disk.record_removed ≡ true
    → ((append disk p r lock).0 ≡ err root)
      × ((append disk p r lock).1.links ≡ p.links)
      × ((append disk p r lock).1.records ≡ p.records)
      × ((append disk p r lock).1.current ≡ p.current)
      × (next_number (append disk p r lock).1 ≡ next_number p)
unfolding append append_digest append_record append_root
append_refused disk p r lock d rendered small made locked e f recorded refusal unlocked unrecorded =
    let n = next_number p in
    let undone : append disk p r lock ≡ (
      err root,
      record p {
        records = remove n (put n rendered p.records);
        locks = remove n (put n lock p.locks);
      },
    ) =
      simp (
        made, locked, append_digest, e, append_record, f, recorded, append_root, refusal, unlocked,
        unrecorded,
      ) in
    let same = remove-put n rendered p.records (next_number-free p n small (omega arith)).1 in
    rw undone (refl, refl, same, refl, rw same refl)
