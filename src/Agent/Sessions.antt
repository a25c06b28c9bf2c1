-- ===== src/Agent/Sessions.antt =====
-- src/bin/vivarium-guest-agent/control.rs: the shared count of live sessions, over every
-- interleaving of the connections. Behind an accepted `Start` a connection counts itself, binds its
-- `SessionLive` and runs its session; the binding is dropped behind that, however the session
-- ended, and its drop takes the connection out of the count again.
use vivarium.Prelude.{
  ℕ, ◌+◌, ◌-◌, ◌%◌, ◌^◌, ◌<◌, ◌≤◌, ◌≡◌, refl, ◌∙◌, ap, List, [], ◌∷◌, ◌++◌, All, All-append, length,
  arith,
}

-- What a connection does behind its `Start`, in steps that others may come between.
pub data Op : Type 0 where
  count_in run_session count_out : Op

abbrev pub start_arm : List Op
start_arm = count_in ∷ run_session ∷ count_out ∷ []

-- `AtomicU64`: both wrap.
abbrev pub fetch_add : ℕ → ℕ
fetch_add n = (n + 1) % 2 ^ 64

abbrev pub fetch_sub : ℕ → ℕ
fetch_sub n = (n + (2 ^ 64 - 1)) % 2 ^ 64

abbrev pub perform : Op → ℕ → ℕ
perform count_in n = fetch_add n
perform run_session n = n
perform count_out n = fetch_sub n

-- The count, and what is left to do of each connection that had its `Start` accepted.
pub record Agent : Type 0 where
  pub sessions : ℕ
  pub connections : List (List Op)

abbrev pub idle : Agent
idle = record { sessions = 0; connections = [] }

pub data Step : Agent → Agent → Type 0 where
  accept : {a : Agent} → Step a (record a { connections = start_arm ∷ a.connections })
  act :
      {a : Agent} (op : Op) (rest : List Op) (before after : List (List Op))
      → a.connections ≡ before ++ ((op ∷ rest) ∷ after)
      → Step a (record { sessions = perform op a.sessions; connections = before ++ (rest ∷ after) })

pub data Run : Agent → Type 0 where
  fresh : Run idle
  step : {a b : Agent} → Run a → Step a b → Run b

-- The connections whose session is to run or runs, and those that have something left to do.
abbrev pub running : List (List Op) → ℕ
running [] = 0
running ((run_session ∷ ops) ∷ more) = 1 + running more
running (ops ∷ more) = running more

abbrev pub unfinished : List (List Op) → ℕ
unfinished [] = 0
unfinished ([] ∷ more) = unfinished more
unfinished ((op ∷ ops) ∷ more) = 1 + unfinished more

-- The places in the arm.
data IsTail : List Op → Type 0 where
  whole : IsTail (count_in ∷ run_session ∷ count_out ∷ [])
  counted : IsTail (run_session ∷ count_out ∷ [])
  ran : IsTail (count_out ∷ [])
  done : IsTail []

-- What a connection owes the count.
abbrev owed : List Op → ℕ
owed [] = 0
owed (count_in ∷ ops) = 0
owed (run_session ∷ ops) = 1
owed (count_out ∷ ops) = 1

abbrev total : List (List Op) → ℕ
total [] = 0
total (ops ∷ more) = owed ops + total more

total-append : (xs ys : List (List Op)) → total (xs ++ ys) ≡ total xs + total ys
total-append [] ys = omega arith
total-append (x ∷ xs) ys = omega (arith, total-append xs ys)

All-split :
    (before after : List (List Op)) (ops : List Op)
    → All IsTail (before ++ (ops ∷ after))
    → All IsTail before × IsTail ops × All IsTail after
All-split [] after ops h = (tt, h.0, h.1)
All-split (b ∷ before) after ops h =
    let (front, here, behind) = All-split before after ops h.1 in ((h.0, front), here, behind)

perform-owed :
    (op : Op) (rest : List Op) (n m : ℕ)
    → IsTail (op ∷ rest)
    → n ≡ (owed (op ∷ rest) + m) % 2 ^ 64
    → IsTail rest × (perform op n ≡ (owed rest + m) % 2 ^ 64)
perform-owed count_in rest n m whole e = (counted, omega arith)
perform-owed run_session rest n m counted e = (ran, e)
perform-owed count_out rest n m ran e = (done, omega arith)

-- The count is what is owed, and every connection is at some place of the arm.
record IsCounted (a : Agent) : Type 0 where
  tails : All IsTail a.connections
  count : a.sessions ≡ total a.connections % 2 ^ 64

Step-IsCounted : (a b : Agent) → Step a b → IsCounted a → IsCounted b
Step-IsCounted a b accept h = record { tails = (whole, h.tails); count = ground (arith, h.count) }
Step-IsCounted a b (act op rest before after e) h =
    let (front, here, behind) = All-split before after (op ∷ rest) (rw e at h.tails) in
    let sum = total-append before ((op ∷ rest) ∷ after) in
    let left = total-append before (rest ∷ after) in
    let owing : a.sessions ≡ (owed (op ∷ rest) + (total before + total after)) % 2 ^ 64 =
      h.count
      ∙ ap (λ connections. total connections % 2 ^ 64) e
      ∙ ap (λ n. n % 2 ^ 64) (omega (arith, sum)) in
    let (there, then_owed) =
      perform-owed op rest a.sessions (total before + total after) here owing in
    record {
      tails = All-append IsTail before (rest ∷ after) front (there, behind);
      count = then_owed ∙ ap (λ n. n % 2 ^ 64) (omega (arith, left));
    }

Run-IsCounted : (a : Agent) → Run a → IsCounted a
Run-IsCounted a fresh = record { tails = tt; count = refl }
Run-IsCounted b (step {a} r s) = Step-IsCounted a b s (Run-IsCounted a r)

owed-bounds :
    (connections : List (List Op))
    → (running connections ≤ total connections)
      × (total connections ≤ unfinished connections)
      × (total connections ≤ length connections)
owed-bounds [] = (omega arith, omega arith, omega arith)
owed-bounds ([] ∷ more) = ground (arith, owed-bounds more)
owed-bounds ((count_in ∷ ops) ∷ more) = ground (arith, owed-bounds more)
owed-bounds ((run_session ∷ ops) ∷ more) = ground (arith, owed-bounds more)
owed-bounds ((count_out ∷ ops) ∷ more) = ground (arith, owed-bounds more)

-- However the steps of the connections come between one another, the count of sessions is at least
-- the number of connections whose session is to run or runs, and at most the number of those that
-- have something left to do, as long as fewer than 2 ^ 64 had their `Start` accepted.
pub running-le-sessions :
    (a : Agent)
    → Run a
    → length a.connections < 2 ^ 64
    → (running a.connections ≤ a.sessions) × (a.sessions ≤ unfinished a.connections)
running-le-sessions a r h =
    let kept = Run-IsCounted a r in
    let (low, high, long) = owed-bounds a.connections in
    let exact : a.sessions ≡ total a.connections = ground (arith, kept.count) in
    (ground arith, ground arith)
