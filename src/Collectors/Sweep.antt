-- ===== src/Collectors/Sweep.antt =====
-- PPTaskCollector.update_ongoing without data parallelism: what its loop does to a list from which
-- it removes while it goes through it.
use chitu.Base.{
  ℕ, zero, suc, ◌+◌, ◌≤◌, ◌≡◌, refl, sym, ap, ◌∙◌, Bool, true, false, Option, none, some, String,
  List, [], ◌∷◌, ◌++◌, map, arith, if◌then◌else◌, length, get_elem?, All, Bool-cases, Option-cases,
  inl, inr, Dict, get, put, get-put, ok, string_eq, nat_eq, has_key, Unique, Unique-append,
  Unique-apart, Unique-drop, Unique-fresh, append_assoc, append-nil, leb, length-append,
}
use chitu.Task.{Task, unwait}
use chitu.Collectors.{
  PackedTasks, OngoingRequests, Collectors, unwait_task, unwait_each, with_result, finish_request,
  remove_request, update_from, update_ongoing,
}

-- Of a list of requests, those that a sweep takes, and those that it leaves. The request behind one
-- that is taken_out is passed over.
abbrev pub taken_out : (ℕ → Bool) → Bool → List OngoingRequests → List OngoingRequests
taken_out done passed [] = []
taken_out done true (r ∷ rs) = taken_out done false rs
taken_out done false (r ∷ rs) =
    let rest = taken_out done (done r.handle) rs in if done r.handle then r ∷ rest else rest

abbrev pub left : (ℕ → Bool) → Bool → List OngoingRequests → List OngoingRequests
left done passed [] = []
left done true (r ∷ rs) = r ∷ left done false rs
left done false (r ∷ rs) =
    let rest = left done (done r.handle) rs in if done r.handle then rest else r ∷ rest

-- What a task is after unwait().
abbrev awake : Task → Task
awake t = record t { is_waiting = false; handle = none }

abbrev release_found : String → Option Task → Dict String Task → Dict String Task
release_found i none d = d
release_found i (some t) d = put d i (awake t)

abbrev release : String → Dict String Task → Dict String Task
release i d = release_found i (get d i) d

abbrev pub unwaited : List String → Dict String Task → Dict String Task
unwaited [] d = d
unwaited (i ∷ is) d = unwaited is (release i d)

abbrev waits_found : Option Task → Bool
waits_found none = false
waits_found (some t) = t.is_waiting

abbrev pub waits : Dict String Task → String → Bool
waits d i = waits_found (get d i)

abbrev pub ids_in : List OngoingRequests → List String
ids_in [] = []
ids_in (r ∷ rs) = r.waiting_task.tasks ++ ids_in rs

abbrev pub AllWait : Dict String Task → List String → Type 0
AllWait d is = All (λ i. waits d i ≡ true) is

abbrev pub handles : List OngoingRequests → List ℕ
handles [] = []
handles (r ∷ rs) = r.handle ∷ handles rs

abbrev pub finished : OngoingRequests → PackedTasks
finished r = with_result r.results r.waiting_task

-- The tasks of different requests under way are different and wait, and the handles are different.
pub record IsUnderWay (c : Collectors) : Type 0 where
  pub alone : leb c.dp_size 1 ≡ true
  pub tasks_once : Unique (ids_in c.pp.ongoing_reqs)
  pub handles_once : Unique (handles c.pp.ongoing_reqs)
  pub all_wait : AllWait c.tasks (ids_in c.pp.ongoing_reqs)

waits-release :
    (d : Dict String Task) (i j : String)
    → waits (release i d) j ≡ (if string_eq.beq i j then false else waits d j)
waits-release d i j = elim (Option-cases (get d i)) [
  | inl e ↦ rw e (ground (arith, e, string_eq.beq_iff i j))
  | inr (t, e) ↦ rw (e, get-put d i j (awake t)) (ground arith)
]

AllWait-release :
    (i : String) (js : List String) (d : Dict String Task)
    → has_key i js ≡ false
    → AllWait d js
    → AllWait (release i d) js
AllWait-release i [] d h w = tt
AllWait-release i (j ∷ js) d h w =
    rw (waits-release d i j)
      (ground (arith, string_eq.beq_iff i j, string_eq.beq_iff j i, AllWait-release i js d))

unwait_each-eq :
    (is : List String) (c : Collectors)
    → Unique is
    → AllWait c.tasks is
    → unwait_each is c ≡ (ok tt, record c { tasks = unwaited is c.tasks })
unfolding unwait_each unwait_task unwait
unwait_each-eq [] c u w = refl
unwait_each-eq (i ∷ is) c u w = elim (Option-cases (get c.tasks i)) [
  | inl e ↦ absurd (let f = rw e at (w.0) in cc)
  | inr (t, e) ↦
      (let f : t.is_waiting ≡ true = rw e at (w.0) in
        let k = AllWait-release i is c.tasks u.0 w.1 in
        rw (e, f)
          (unwait_each-eq is (record c { tasks = put c.tasks i (awake t) }) u.1 (rw e at k)))
]

pub unwaited-append :
    (is js : List String) (d : Dict String Task)
    → unwaited (is ++ js) d ≡ unwaited js (unwaited is d)
unwaited-append [] js d = refl
unwaited-append (i ∷ is) js d = unwaited-append is js _

waits-unwaited :
    (is : List String) (j : String) (d : Dict String Task)
    → has_key j is ≡ false
    → waits (unwaited is d) j ≡ waits d j
waits-unwaited [] j d h = refl
waits-unwaited (i ∷ is) j d h =
    let z : string_eq.beq i j ≡ false = ground (arith, h) in
    waits-unwaited is j (release i d) (ground (arith, h)) ∙ rw (waits-release d i j, z) refl

pub AllWait-unwaited :
    (is js : List String) (d : Dict String Task)
    → All (λ j. has_key j is ≡ false) js
    → AllWait d js
    → AllWait (unwaited is d) js
AllWait-unwaited is [] d h w = tt
AllWait-unwaited is (j ∷ js) d h w =
    (waits-unwaited is j d h.0 ∙ w.0, AllWait-unwaited is js d h.1 w.1)

pub AllWait-append :
    (is js : List String) (d : Dict String Task)
    → AllWait d (is ++ js)
    → AllWait d is × AllWait d js
AllWait-append [] js d w = (tt, w)
AllWait-append (i ∷ is) js d w = let r = AllWait-append is js d w.1 in ((w.0, r.0), r.1)

get_elem?-at :
    (pre rs : List OngoingRequests) (r : OngoingRequests) (i : ℕ)
    → i ≡ length pre
    → get_elem? (pre ++ r ∷ rs) i ≡ some r
get_elem?-at [] rs r zero h = refl
get_elem?-at [] rs r (suc i) h = absurd (omega (arith, h))
get_elem?-at (q ∷ pre) rs r zero h = absurd (omega (arith, h))
get_elem?-at (q ∷ pre) rs r (suc i) h = get_elem?-at pre rs r i (omega (arith, h))

get_elem?-past : (rs : List OngoingRequests) (i : ℕ) → length rs ≤ i → get_elem? rs i ≡ none
get_elem?-past [] i h = refl
get_elem?-past (r ∷ rs) zero h = absurd (omega (arith, h))
get_elem?-past (r ∷ rs) (suc i) h = get_elem?-past rs i (omega (arith, h))

handles-append : (pre rs : List OngoingRequests) → handles (pre ++ rs) ≡ handles pre ++ handles rs
handles-append [] rs = refl
handles-append (r ∷ pre) rs = ap (λ t. r.handle ∷ t) (handles-append pre rs)

remove_request-at :
    (pre rs : List OngoingRequests) (r : OngoingRequests)
    → has_key r.handle (handles pre) ≡ false
    → remove_request r.handle (pre ++ r ∷ rs) ≡ pre ++ rs
unfolding remove_request
remove_request-at [] rs r h = ground arith
remove_request-at (q ∷ pre) rs r h = ground (arith, remove_request-at pre rs r)

module _ (done : ℕ → Bool) (c : Collectors) (alone : leb c.dp_size 1 ≡ true) where
  abbrev with_pp : Dict String Task → List OngoingRequests → List PackedTasks → Collectors
  with_pp tasks reqs un = record c {
    tasks = tasks;
    pp = record { ongoing_reqs = reqs; unwait_tasks = un };
  }

  update_from-past :
      (n i : ℕ) (ts : Dict String Task) (rs : List OngoingRequests) (un : List PackedTasks)
      → length rs ≤ i
      → update_from done n i (with_pp ts rs un) ≡ (ok tt, with_pp ts rs un)
  unfolding update_from
  update_from-past zero i ts rs un h = refl
  update_from-past (suc n) i ts rs un h =
      rw (get_elem?-past rs i h) (update_from-past n (suc i) ts rs un (omega (arith, h)))

  finish_request-eq :
      (r : OngoingRequests) (ts : Dict String Task) (rs : List OngoingRequests)
      (un : List PackedTasks)
      → Unique r.waiting_task.tasks
      → AllWait ts r.waiting_task.tasks
      → finish_request r (with_pp ts rs un)
        ≡ (ok tt, with_pp (unwaited r.waiting_task.tasks ts) rs (un ++ finished r ∷ []))
  unfolding finish_request
  finish_request-eq r ts rs un u w =
      rw alone (unwait_each-eq r.waiting_task.tasks (with_pp ts rs (un ++ finished r ∷ [])) u w)

  abbrev swept :
      Bool
      → Dict String Task
      → List OngoingRequests
      → List OngoingRequests
      → List PackedTasks
      → Collectors
  swept passed ts pre rs un =
      with_pp (unwaited (ids_in (taken_out done passed rs)) ts) (pre ++ left done passed rs)
        (un ++ map finished (taken_out done passed rs))

  update_from-eq :
      (n i : ℕ) (passed : Bool) (pre rs : List OngoingRequests) (ts : Dict String Task)
      (un : List PackedTasks)
      → length rs ≤ n
      → i ≡ length pre + (if passed then 1 else 0)
      → Unique (handles (pre ++ rs))
      → Unique (ids_in rs)
      → AllWait ts (ids_in rs)
      → update_from done n i (with_pp ts (pre ++ rs) un) ≡ (ok tt, swept passed ts pre rs un)
  unfolding update_from
  update_from-eq n i passed pre [] ts un l e uh ui w = rw (append-nil un) (
      update_from-past n i ts (pre ++ []) un
        (omega (arith, e, ap length (append-nil pre), length-append pre [])))
  update_from-eq n i true pre (r ∷ rs) ts un l e uh ui w =
      let a : pre ++ r ∷ rs ≡ (pre ++ r ∷ []) ++ rs = sym (append_assoc pre (r ∷ []) rs) in
      let b : (pre ++ r ∷ []) ++ left done false rs ≡ pre ++ r ∷ left done false rs =
        append_assoc pre (r ∷ []) (left done false rs) in
      let at : i ≡ length (pre ++ r ∷ []) + 0 = omega (arith, e, length-append pre (r ∷ [])) in
      let apart = Unique-append r.waiting_task.tasks (ids_in rs) ui in
      let wait = AllWait-append r.waiting_task.tasks (ids_in rs) ts w in
      rw (a, ← b)
        (update_from-eq n i false (pre ++ r ∷ []) rs ts un (omega (arith, l)) at (rw a at uh)
          apart.1 wait.1)
  update_from-eq zero i false pre (r ∷ rs) ts un l e uh ui w = absurd (omega (arith, l))
  update_from-eq (suc n) i false pre (r ∷ rs) ts un l e uh ui w =
      elim (Bool-cases (done r.handle)) [
        | inl d ↦
            let u : Unique (handles pre ++ r.handle ∷ handles rs) =
              rw (handles-append pre (r ∷ rs)) at uh in
            let g = get_elem?-at pre rs r i (omega (arith, e)) in
            let fresh = Unique-fresh (handles pre) r.handle (handles rs) u in
            let drop = Unique-drop (handles pre) r.handle (handles rs) u in
            let ends = Unique-append r.waiting_task.tasks (ids_in rs) ui in
            let wait = AllWait-append r.waiting_task.tasks (ids_in rs) ts w in
            let apart = Unique-apart r.waiting_task.tasks (ids_in rs) ui in
            let f = finish_request-eq r ts (pre ++ rs) un ends.0 wait.0 in
            rw (g, d, remove_request-at pre rs r fresh, f)
              (rw
                (
                  unwaited-append r.waiting_task.tasks (ids_in (taken_out done true rs)) ts,
                  ← append_assoc un (finished r ∷ []) (map finished (taken_out done true rs)),
                )
                (update_from-eq n (suc i) true pre rs (unwaited r.waiting_task.tasks ts)
                  (un ++ finished r ∷ []) (omega (arith, l)) (omega (arith, e))
                  (rw (sym (handles-append pre rs)) at drop) ends.1
                  (AllWait-unwaited r.waiting_task.tasks (ids_in rs) ts apart wait.1)))
        | inr d ↦
            let a : pre ++ r ∷ rs ≡ (pre ++ r ∷ []) ++ rs = sym (append_assoc pre (r ∷ []) rs) in
            let b : (pre ++ r ∷ []) ++ left done false rs ≡ pre ++ r ∷ left done false rs =
              append_assoc pre (r ∷ []) (left done false rs) in
            let g = get_elem?-at pre rs r i (omega (arith, e)) in
            let at : suc i ≡ length (pre ++ r ∷ []) + 0 =
              omega (arith, e, length-append pre (r ∷ [])) in
            let ends = Unique-append r.waiting_task.tasks (ids_in rs) ui in
            let wait = AllWait-append r.waiting_task.tasks (ids_in rs) ts w in
            rw (g, d, a, ← b)
              (update_from-eq n (suc i) false (pre ++ r ∷ []) rs ts un (omega (arith, l)) at
                (rw a at uh) ends.1 wait.1)
      ]

-- What a sweep leaves of the collectors.
abbrev pub after_sweep : (ℕ → Bool) → Collectors → Collectors
after_sweep done c = record c {
  tasks = unwaited (ids_in (taken_out done false c.pp.ongoing_reqs)) c.tasks;
  pp = record {
    ongoing_reqs = left done false c.pp.ongoing_reqs;
    unwait_tasks = c.pp.unwait_tasks ++ map finished (taken_out done false c.pp.ongoing_reqs);
  };
}

-- Without data parallelism, for requests under way whose handles and tasks are different and
-- whose tasks wait, an update returns and does exactly one sweep: the completed requests that
-- are not right behind one that it takes leave the list, in order, with their results, their
-- tasks and only those do not wait any more, and all else is as before.
pub update_ongoing-eq :
    (done : ℕ → Bool) (c : Collectors)
    → IsUnderWay c
    → update_ongoing done c ≡ (ok (after_sweep done c).pp.unwait_tasks, after_sweep done c)
unfolding update_ongoing
update_ongoing-eq done c h =
    let e =
      update_from-eq done c h.alone (length c.pp.ongoing_reqs) 0 false [] c.pp.ongoing_reqs c.tasks
        c.pp.unwait_tasks (omega arith) (omega arith) h.handles_once h.tasks_once h.all_wait in
    rw e refl
