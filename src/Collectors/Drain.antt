-- ===== src/Collectors/Drain.antt =====
-- PPTaskCollector.update_ongoing, called again and again without data parallelism: requests that
-- are completed leave.
use native.Mathlib.Nat.{pow-suc}
use chitu.Base.{
  ℕ, ◌+◌, ◌/◌, ◌^◌, ◌≤◌, ◌<◌, ◌≡◌, refl, Bool, true, false, String, List, [], ◌∷◌, ◌++◌, arith,
  length, All, Bool-cases, inl, inr, string_eq, nat_eq, has_key, Unique, ap, map, Result,
  length-map, length-append, has_key-append, Unique-append, Unique-apart, Unique-ahead, Unique-join,
  Dict,
}
use chitu.Task.{Task}
use chitu.Collectors.{OngoingRequests, PackedTasks, Collectors, update_ongoing}
use chitu.Collectors.Sweep.{
  taken_out, left, finished, unwaited, ids_in, AllWait, handles, IsUnderWay, after_sweep,
  update_ongoing-eq, AllWait-unwaited, AllWait-append, unwaited-append,
}

-- The requests of a list, in order, shared between two lists.
data Parts : List OngoingRequests → List OngoingRequests → List OngoingRequests → Type 0 where
  finish : Parts [] [] []
  leave : (r : OngoingRequests) {rs ls ts : _} → Parts rs ls ts → Parts (r ∷ rs) (r ∷ ls) ts
  take_out : (r : OngoingRequests) {rs ls ts : _} → Parts rs ls ts → Parts (r ∷ rs) ls (r ∷ ts)

sweep-Parts :
    (done : ℕ → Bool) (passed : Bool) (rs : List OngoingRequests)
    → Parts rs (left done passed rs) (taken_out done passed rs)
sweep-Parts done passed [] = finish
sweep-Parts done true (r ∷ rs) = leave r (sweep-Parts done false rs)
sweep-Parts done false (r ∷ rs) = elim (Bool-cases (done r.handle)) [
  | inl d ↦ rw d (take_out r (sweep-Parts done true rs))
  | inr d ↦ rw d (leave r (sweep-Parts done false rs))
]

ids_absent :
    (j : String) {rs ls ts : List OngoingRequests}
    → Parts rs ls ts
    → has_key j (ids_in rs) ≡ false
    → (has_key j (ids_in ls) ≡ false) × (has_key j (ids_in ts) ≡ false)
ids_absent j finish h = (refl, refl)
ids_absent j (leave r {rs = rs} {ls = ls} p) h =
    let i = ids_absent j p (ground (arith, has_key-append j r.waiting_task.tasks (ids_in rs))) in
    ground (
      arith,
      i,
      has_key-append j r.waiting_task.tasks (ids_in rs),
      has_key-append j r.waiting_task.tasks (ids_in ls),
    )
ids_absent j (take_out r {rs = rs} {ts = ts} p) h =
    let i = ids_absent j p (ground (arith, has_key-append j r.waiting_task.tasks (ids_in rs))) in
    ground (
      arith,
      i,
      has_key-append j r.waiting_task.tasks (ids_in rs),
      has_key-append j r.waiting_task.tasks (ids_in ts),
    )

handles_absent :
    (h : ℕ) {rs ls ts : List OngoingRequests}
    → Parts rs ls ts
    → has_key h (handles rs) ≡ false
    → has_key h (handles ls) ≡ false
handles_absent h finish a = refl
handles_absent h (leave r p) a = ground (arith, handles_absent h p)
handles_absent h (take_out r p) a = ground (arith, handles_absent h p)

handles-Unique :
    {rs ls ts : List OngoingRequests} → Parts rs ls ts → Unique (handles rs) → Unique (handles ls)
handles-Unique finish u = tt
handles-Unique (leave r p) u = (handles_absent r.handle p u.0, handles-Unique p u.1)
handles-Unique (take_out r p) u = handles-Unique p u.1

each_absent :
    (is : List String) {rs ls ts : List OngoingRequests}
    → Parts rs ls ts
    → All (λ i. has_key i (ids_in rs) ≡ false) is
    → All (λ i. has_key i (ids_in ls) ≡ false) is × All (λ i. has_key i (ids_in ts) ≡ false) is
each_absent [] p h = (tt, tt)
each_absent (i ∷ is) p h =
    let a = ids_absent i p h.0 in let b = each_absent is p h.1 in ((a.0, b.0), (a.1, b.1))

ids_in-Unique :
    {rs ls ts : List OngoingRequests} → Parts rs ls ts → Unique (ids_in rs) → Unique (ids_in ls)
ids_in-Unique finish u = tt
ids_in-Unique (leave r {rs = rs} {ls = ls} p) u =
    let e = Unique-append r.waiting_task.tasks (ids_in rs) u in
    Unique-join r.waiting_task.tasks (ids_in ls) e.0 (ids_in-Unique p e.1)
      (each_absent r.waiting_task.tasks p (Unique-ahead r.waiting_task.tasks (ids_in rs) u)).0
ids_in-Unique (take_out r {rs = rs} p) u =
    ids_in-Unique p (Unique-append r.waiting_task.tasks (ids_in rs) u).1

AllWait-join :
    (is js : List String) (d : Dict String Task)
    → AllWait d is
    → AllWait d js
    → AllWait d (is ++ js)
AllWait-join [] js d w v = v
AllWait-join (i ∷ is) js d w v = (w.0, AllWait-join is js d w.1 v)

still-AllWait :
    {rs ls ts : List OngoingRequests} (d : Dict String Task)
    → Parts rs ls ts
    → Unique (ids_in rs)
    → AllWait d (ids_in rs)
    → AllWait (unwaited (ids_in ts) d) (ids_in ls)
still-AllWait d finish u w = tt
still-AllWait d (leave r {rs = rs} {ls = ls} {ts = ts} p) u w =
    let e = Unique-append r.waiting_task.tasks (ids_in rs) u in
    let v = AllWait-append r.waiting_task.tasks (ids_in rs) d w in
    let a =
      (each_absent r.waiting_task.tasks p (Unique-ahead r.waiting_task.tasks (ids_in rs) u)).1 in
    AllWait-join r.waiting_task.tasks (ids_in ls) (unwaited (ids_in ts) d)
      (AllWait-unwaited (ids_in ts) r.waiting_task.tasks d a v.0) (still-AllWait d p e.1 v.1)
still-AllWait d (take_out r {rs = rs} {ts = ts} p) u w =
    let e = Unique-append r.waiting_task.tasks (ids_in rs) u in
    let v = AllWait-append r.waiting_task.tasks (ids_in rs) d w in
    rw (unwaited-append r.waiting_task.tasks (ids_in ts) d) (
      still-AllWait (unwaited r.waiting_task.tasks d) p e.1 (
        AllWait-unwaited r.waiting_task.tasks (ids_in rs) d
          (Unique-apart r.waiting_task.tasks (ids_in rs) u) v.1))

after_sweep-IsUnderWay :
    (done : ℕ → Bool) (c : Collectors) → IsUnderWay c → IsUnderWay (after_sweep done c)
after_sweep-IsUnderWay done c h =
    let p = sweep-Parts done false c.pp.ongoing_reqs in
    record {
      alone = h.alone;
      tasks_once = ids_in-Unique p h.tasks_once;
      handles_once = handles-Unique p h.handles_once;
      all_wait = still-AllWait c.tasks p h.tasks_once h.all_wait;
    }

-- k calls, each with what the handles say at its time
unfoldable pub updates : List (ℕ → Bool) → Collectors → Collectors
updates [] c = c
updates (done ∷ dones) c = updates dones (update_ongoing done c).1

-- When all are completed, every second request leaves.
length-left :
    (done : ℕ → Bool) (rs : List OngoingRequests)
    → All (λ h. done h ≡ true) (handles rs)
    → (length (left done false rs) ≤ length rs / 2)
      × (length (left done true rs) ≤ (length rs + 1) / 2)
length-left done [] a = (omega arith, omega arith)
length-left done (r ∷ rs) a =
    let ih = length-left done rs a.1 in rw (a.0) (omega (arith, ih.0), omega (arith, ih.1))

length-Parts :
    {rs ls ts : List OngoingRequests} → Parts rs ls ts → length ls + length ts ≡ length rs
length-Parts finish = refl
length-Parts (leave r p) = omega (arith, length-Parts p)
length-Parts (take_out r p) = omega (arith, length-Parts p)

handles-All :
    (P : ℕ → Type 0) {rs ls ts : List OngoingRequests}
    → Parts rs ls ts
    → All P (handles rs)
    → All P (handles ls)
handles-All P finish a = tt
handles-All P (leave r p) a = (a.0, handles-All P p a.1)
handles-All P (take_out r p) a = handles-All P p a.1

-- Each call finds the given requests completed.
abbrev pub AllDone : List (ℕ → Bool) → List OngoingRequests → Type 0
AllDone dones rs = All (λ done. All (λ h. done h ≡ true) (handles rs)) dones

still-AllDone :
    (dones : List (ℕ → Bool)) {rs ls ts : List OngoingRequests}
    → Parts rs ls ts
    → AllDone dones rs
    → AllDone dones ls
still-AllDone [] p a = tt
still-AllDone (done ∷ dones) p a =
    (handles-All (λ h. done h ≡ true) p a.0, still-AllDone dones p a.1)

abbrev pub HandedOver : Collectors → Collectors → Type 0
HandedOver c c' =
    (c'.pp.ongoing_reqs ≡ [])
    × (length c'.pp.unwait_tasks ≡ length c.pp.unwait_tasks + length c.pp.ongoing_reqs)

no_request : (rs : List OngoingRequests) → length rs < 1 → rs ≡ []
no_request [] h = refl
no_request (r ∷ rs) h = absurd (omega (arith, h))

-- Without data parallelism, n requests under way that are all completed, whose handles and tasks
-- are different and whose tasks wait, are all handed over after k calls if n is below 2 to the
-- k: none is under way any more, and n results have been added.
pub updates-HandedOver :
    (dones : List (ℕ → Bool)) (c : Collectors)
    → IsUnderWay c
    → AllDone dones c.pp.ongoing_reqs
    → length c.pp.ongoing_reqs < 2 ^ length dones
    → HandedOver c (updates dones c)
unfolding updates
updates-HandedOver [] c h a n =
    let z = no_request c.pp.ongoing_reqs n in (z, omega (arith, ap length z))
updates-HandedOver (done ∷ dones) c h a n =
    let p = sweep-Parts done false c.pp.ongoing_reqs in
    let l = (length-left done c.pp.ongoing_reqs a.0).0 in
    let e = length-Parts p in
    let m =
      length-append c.pp.unwait_tasks (map finished (taken_out done false c.pp.ongoing_reqs)) in
    let k = length-map (taken_out done false c.pp.ongoing_reqs) finished in
    let ih =
      updates-HandedOver dones (after_sweep done c) (after_sweep-IsUnderWay done c h)
        (still-AllDone dones p a.1) (omega (arith, l, n, pow-suc 2 (length dones))) in
    let first : updates (done ∷ dones) c ≡ updates dones (after_sweep done c) =
      ap (λ (r : Result (List PackedTasks) × Collectors). updates dones r.1)
        (update_ongoing-eq done c h) in
    rw first (ih.0, omega (arith, ih.1, e, m, k))
