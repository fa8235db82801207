-- ===== src/Api/Finalizer/Visits.antt =====
-- What the visits of one tick do to the records.
use browser_agent.Common.{
  String, ◌≡◌, ◌≢◌, refl, sym, ap, subst, ◌∙◌, Bool, true, false, Option, none, some, List, [], ◌∷◌,
  All, map, str_eq, eq_iff, lookup, insert, lookup-insert, str_eq_refl, if◌then◌else◌, Bool-cases,
  Option-cases, inl, inr, ◌⊎◌, arith,
}
use browser_agent.Agent.Effect.{Result, ok, raised}
use browser_agent.Orchestrator.Finalize.{RunResult}
use browser_agent.Api.Registry.{RunRecord, RunRegistry, pending_finalization, mark_finalized}
use browser_agent.Api.Finalizer.{Workflow, attend, visit, visit_all}

module _ {V : Type 0} (workflow : Workflow V) where
  -- A record that finalize has completed, on a queue that was drained.
  pub record Completed (rec : RunRecord V) : Type 0 where
    pub state : V
    pub result : RunResult
    pub drained : (workflow.queue_drained state).0 ≡ ok true
    pub returned : (workflow.finalize (workflow.queue_drained state).1).0 ≡ ok result
    pub status : rec.status ≡ "completed"
    pub total : rec.total ≡ result.total
    pub passed : rec.passed ≡ result.passed
    pub failed : rec.failed ≡ result.failed
    pub run_root : rec.run_root ≡ some (workflow.root_of result)
    pub settled : rec.awaits_finalization ≡ false

  -- One that waits as it did, but for the state of its workflow.
  pub record Waiting (before rec : RunRecord V) : Type 0 where
    pub status : rec.status ≡ before.status
    pub total : rec.total ≡ before.total
    pub passed : rec.passed ≡ before.passed
    pub failed : rec.failed ≡ before.failed
    pub run_root : rec.run_root ≡ before.run_root
    pub waits : rec.awaits_finalization ≡ true

  -- The same record, but for its workflow.
  abbrev pub Kept : RunRecord V → RunRecord V → Type 0
  Kept rec rec' = rec' ≡ record rec { workflow = rec'.workflow }

  -- A dictionary whose records stand under their ids.
  abbrev pub IsValid : RunRegistry V → Type 0
  IsValid [] = Unit {0}
  IsValid ((k, rec) ∷ runs) = (k ≡ rec.run_id) × (lookup k runs ≡ none) × IsValid runs

  pub insert-IsValid :
      (k : String) (rec : RunRecord V) (runs : RunRegistry V)
      → k ≡ rec.run_id
      → IsValid runs
      → IsValid (insert k rec runs)
  insert-IsValid k rec [] e v = (e, refl, tt)
  insert-IsValid k rec ((j, r) ∷ runs) e v = elim (Bool-cases (str_eq j k)) [
    | inl f ↦ rw f (e, subst (λ x. lookup x runs ≡ none) ((eq_iff j k).0 f) v.1, v.2)
    | inr f ↦ rw f (
      v.0,
      lookup-insert k j rec runs ∙ ground (arith, f, eq_iff j k, eq_iff k j, v.1),
      insert-IsValid k rec runs e v.2,
    )
  ]

  pub lookup-id :
      (id : String) (rec : RunRecord V) (runs : RunRegistry V)
      → IsValid runs
      → lookup id runs ≡ some rec
      → rec.run_id ≡ id
  lookup-id id rec [] v h = cc
  lookup-id id rec ((k, r) ∷ runs) v h =
      ground (arith, lookup-id id rec runs v.2, eq_iff k id, v.0, h)

  -- What a visit makes of the record.
  abbrev touched : RunRecord V → RunRecord V
  touched rec = elim rec.workflow [
    | none ↦ rec
    | some v ↦
        if (attend workflow v rec).1
        then (record (attend workflow v rec).0 { awaits_finalization = false })
        else (attend workflow v rec).0
  ]

  attend-id : (v : V) (rec : RunRecord V) → (attend workflow v rec).0.run_id ≡ rec.run_id
  unfolding attend
  attend-id v rec = ground arith

  abbrev touch : Option (RunRecord V) → Option (RunRecord V)
  touch none = none
  touch (some rec) = some (touched rec)

  -- `mark_finalized` on the record that was just written.
  mark-insert :
      (id i : String) (rec : RunRecord V) (runs : RunRegistry V)
      → i ≡ id
      → mark_finalized i (insert id rec runs)
        ≡ insert id (record rec { awaits_finalization = false }) (insert id rec runs)
  unfolding mark_finalized
  mark-insert id i rec runs e =
      let found : lookup id (insert id rec runs) ≡ some rec =
        lookup-insert id id rec runs ∙ rw (str_eq_refl id) refl in
      rw e (rw (mark_finalized, found) refl)

  lookup-insert_twice :
      (id j : String) (rec rec' : RunRecord V) (runs : RunRegistry V)
      → lookup j (insert id rec' (insert id rec runs))
        ≡ (if str_eq id j then some rec' else lookup j runs)
  lookup-insert_twice id j rec rec' runs =
      lookup-insert id j rec' (insert id rec runs) ∙ ground (arith, lookup-insert id j rec runs)

  -- What a visit does, as the registry shows it.
  visit_found :
      (id : String) (rec : RunRecord V) (runs : RunRegistry V)
      → rec.run_id ≡ id
      → lookup id runs ≡ some rec
      → (j : String)
      → lookup j (visit workflow id runs)
        ≡ (if str_eq id j then some (touched rec) else lookup j runs)
  unfolding visit
  visit_found id rec runs named found j = elim (Option-cases rec.workflow) [
    | inl e ↦ rw (visit, found, e) (ground (arith, eq_iff id j, found))
    | inr (v, e) ↦ elim (Bool-cases (attend workflow v rec).1) [
      | inl c ↦
          rw (visit, found, e, c)
            (rw
              (mark-insert id (attend workflow v rec).0.run_id (attend workflow v rec).0 runs
                (attend-id v rec ∙ named))
              (lookup-insert_twice id j _ _ runs))
      | inr c ↦ rw (visit, found, e, c) (lookup-insert id j _ runs)
    ]
  ]

  pub visit-IsValid :
      (id : String) (runs : RunRegistry V) → IsValid runs → IsValid (visit workflow id runs)
  unfolding visit
  visit-IsValid id runs w = elim (Option-cases (lookup id runs)) [
    | inl none_found ↦ rw (visit, none_found) w
    | inr (rec, found) ↦ elim (Option-cases rec.workflow) [
      | inl e ↦ rw (visit, found, e) w
      | inr (v, e) ↦
          let named = sym (attend-id v rec ∙ lookup-id id rec runs w found) in
          elim (Bool-cases (attend workflow v rec).1) [
            | inl c ↦
                rw (visit, found, e, c)
                  (rw
                    (mark-insert id (attend workflow v rec).0.run_id (attend workflow v rec).0 runs
                      (sym named))
                    (insert-IsValid id _ _ named (insert-IsValid id _ runs named w)))
            | inr c ↦ rw (visit, found, e, c) (insert-IsValid id _ runs named w)
          ]
    ]
  ]

  -- Whether it still waits or has been finalized, a visit leaves it so, or finalizes it.
  abbrev pub Fate : RunRecord V → RunRecord V → Type 0
  Fate before rec = Waiting before rec ⊎ Completed rec

  -- The record with another state of its workflow.
  pub at_state :
      (before rec : RunRecord V) (o : Option V)
      → Fate before rec
      → Fate before (record rec { workflow = o })
  at_state before rec o (inl w) = inl (record {
    status = w.status;
    total = w.total;
    passed = w.passed;
    failed = w.failed;
    run_root = w.run_root;
    waits = w.waits;
  })
  at_state before rec o (inr c) = inr (record {
    state = c.state;
    result = c.result;
    drained = c.drained;
    returned = c.returned;
    status = c.status;
    total = c.total;
    passed = c.passed;
    failed = c.failed;
    run_root = c.run_root;
    settled = c.settled;
  })

  attend-Fate :
      (before rec : RunRecord V) (v : V)
      → Fate before rec
      → Fate before (
          if (attend workflow v rec).1
          then (record (attend workflow v rec).0 { awaits_finalization = false })
          else (attend workflow v rec).0)
  unfolding attend
  attend-Fate before rec v f = on_drained (workflow.queue_drained v).0 refl
    where
      on_finalize :
          (r : Result RunResult)
          → (workflow.finalize (workflow.queue_drained v).1).0 ≡ r
          → (workflow.queue_drained v).0 ≡ ok true
          → Fate before (
              if (attend workflow v rec).1
              then (record (attend workflow v rec).0 { awaits_finalization = false })
              else (attend workflow v rec).0)
      on_finalize (raised e) q d =
          rw (attend, d, q)
            (at_state before rec (some (workflow.finalize (workflow.queue_drained v).1).1) f)
      on_finalize (ok r) q d =
          rw (attend, d, q)
            (inr (record {
              state = v;
              result = r;
              drained = d;
              returned = q;
              status = refl;
              total = refl;
              passed = refl;
              failed = refl;
              run_root = refl;
              settled = refl;
            }))

      on_drained :
          (d : Result Bool)
          → (workflow.queue_drained v).0 ≡ d
          → Fate before (
              if (attend workflow v rec).1
              then (record (attend workflow v rec).0 { awaits_finalization = false })
              else (attend workflow v rec).0)
      on_drained (raised e) d =
          rw (attend, d) (at_state before rec (some (workflow.queue_drained v).1) f)
      on_drained (ok false) d =
          rw (attend, d) (at_state before rec (some (workflow.queue_drained v).1) f)
      on_drained (ok true) d = on_finalize (workflow.finalize (workflow.queue_drained v).1).0 refl d

  touched-Fate : (before rec : RunRecord V) → Fate before rec → Fate before (touched rec)
  touched-Fate before rec f =
      elim rec.workflow
        as (λ w. Fate before (elim w [
          | none ↦ rec
          | some v ↦
              if (attend workflow v rec).1
              then (record (attend workflow v rec).0 { awaits_finalization = false })
              else (attend workflow v rec).0
        ])) [ none ↦ f | some v ↦ attend-Fate before rec v f ]

  -- The record under an id after visits.
  visit-Fate :
      (before rec : RunRecord V) (id i : String) (runs : RunRegistry V)
      → IsValid runs
      → lookup id runs ≡ some rec
      → Fate before rec
      → (rec' : RunRecord V) × (lookup id (visit workflow i runs) ≡ some rec') × Fate before rec'
  visit-Fate before rec id i runs w found f = elim (Option-cases (lookup i runs)) [
    | inl e ↦ (rec, (unfold visit in rw (visit, e) found), f)
    | inr (other, e) ↦
        let shown = visit_found i other runs (lookup-id i other runs w e) e id in
        elim (Bool-cases (str_eq i id)) [
          | inr ne ↦ (rec, shown ∙ rw ne found, f)
          | inl eq ↦ (
            touched other,
            shown ∙ rw eq refl,
            touched-Fate before other (
                subst (Fate before)
                  (some_injective
                    (sym found ∙ (ap (λ x. lookup x runs) (sym ((eq_iff i id).0 eq)) ∙ e)))
                  f),
          )
        ]
  ]
    where
      some_injective : {x y : RunRecord V} → some x ≡ some y → x ≡ y
      some_injective q = cc

  -- No record that does not wait is in the snapshot of a tick.
  pub not_pending :
      (id : String) (runs : RunRegistry V)
      → IsValid runs
      → ((rec : RunRecord V) → lookup id runs ≡ some rec → rec.awaits_finalization ≡ false)
      → All (λ i. i ≢ id) (map (λ rec. rec.run_id) (pending_finalization runs))
  unfolding pending_finalization
  not_pending id [] w h = tt
  not_pending id ((k, r) ∷ runs) w h = elim (Bool-cases r.awaits_finalization) [
    | inl e ↦ rw e (head e, not_pending id runs w.2 tail)
    | inr e ↦ rw e (not_pending id runs w.2 tail)
  ]
    where
      head : r.awaits_finalization ≡ true → r.run_id ≢ id
      head e q = ground (arith, e, w.0, q, eq_iff k id, h r)

      tail : (rec : RunRecord V) → lookup id runs ≡ some rec → rec.awaits_finalization ≡ false
      tail rec q = elim (Bool-cases (str_eq k id)) [
        | inl f ↦
            ground (arith, w.1, q, (eq_iff k id).0 f, ap (λ x. lookup x runs) ((eq_iff k id).0 f))
        | inr f ↦ h rec (rw f q)
      ]

  visit_ne :
      (id i : String) (runs : RunRegistry V)
      → IsValid runs
      → i ≢ id
      → lookup id (visit workflow i runs) ≡ lookup id runs
  visit_ne id i runs w ne = elim (Option-cases (lookup i runs)) [
    | inl e ↦ unfold visit in rw (visit, e) refl
    | inr (other, e) ↦
        visit_found i other runs (lookup-id i other runs w e) e id ∙ ground (arith, eq_iff i id, ne)
  ]

  pub visit_all-IsValid :
      (ids : List String) (runs : RunRegistry V)
      → IsValid runs
      → IsValid (visit_all workflow ids runs)
  unfolding visit_all
  visit_all-IsValid [] runs w = w
  visit_all-IsValid (i ∷ ids) runs w = visit_all-IsValid ids _ (visit-IsValid i runs w)

  pub visit_all_ne :
      (id : String) (ids : List String) (runs : RunRegistry V)
      → IsValid runs
      → All (λ i. i ≢ id) ids
      → lookup id (visit_all workflow ids runs) ≡ lookup id runs
  unfolding visit_all
  visit_all_ne id [] runs w h = refl
  visit_all_ne id (i ∷ ids) runs w h =
      visit_all_ne id ids _ (visit-IsValid i runs w) h.1 ∙ visit_ne id i runs w h.0

  pub visit_all-Fate :
      (before rec : RunRecord V) (id : String) (ids : List String) (runs : RunRegistry V)
      → IsValid runs
      → lookup id runs ≡ some rec
      → Fate before rec
      → (rec' : RunRecord V) × (lookup id (visit_all workflow ids runs) ≡ some rec')
        × Fate before rec'
  unfolding visit_all
  visit_all-Fate before rec id [] runs w found f = (rec, found, f)
  visit_all-Fate before rec id (i ∷ ids) runs w found f =
      let (rec', found', f') = visit-Fate before rec id i runs w found f in
      visit_all-Fate before rec' id ids (visit workflow i runs) (visit-IsValid i runs w) found' f'
