-- ===== src/Pipeline/Claims.antt =====
-- claim_run at the start of a run: it is running after it, or the tables are consistent still.
use code_fixer.Base.{
  ℕ, String, ◌&&◌, some, ◌==◌, text_eq, refl, ap, ◌∙◌, Option-cases, Bool-cases, inl, inr,
}
use code_fixer.Base.Result.{Result, ok, err}
use code_fixer.Base.Table.{find}
use code_fixer.Base.Query.{find-update, find-passes}
use code_fixer.Tasks.Table.{Tasks, TaskRun, TaskError, is_run, is_waiting}
use code_fixer.Tasks.Store.{claim_run, find_context, frozen_snapshot, mark_running}
use code_fixer.Tasks.Consistency.{IsConsistent}
use code_fixer.Tasks.Lifecycle.{claim_run-IsConsistent}
use code_fixer.Pipeline.Rules.{IsRunning}

abbrev pub Claimed : (run_id : String) → Result TaskError TaskRun × Tasks → Type 0
Claimed run_id (ok r, t) = IsRunning run_id t
Claimed run_id (err e, t) = IsConsistent t

claimed :
    (run_id : String) (now : ℕ) (s : Tasks)
    → IsConsistent s
    → IsConsistent (claim_run run_id now s).1
    → Claimed run_id (claim_run run_id now s)
unfolding claim_run
claimed run_id now s v = elim (Option-cases (find (is_run run_id) s.runs)) [
  | inl absent ↦ rw (absent, claim_run) (λ kept. kept)
  | inr (q, found) ↦ elim (Option-cases (find_context q s)) [
    | inl absent ↦ rw (found, absent, claim_run) (λ kept. kept)
    | inr ((t, k), joined) ↦ elim (Bool-cases (is_waiting q.status)) [
      | inr stopped ↦ rw (found, joined, stopped, claim_run) (λ kept. kept)
      | inl waits ↦
          elim (Option-cases (frozen_snapshot q.ticket_snapshot_id k.current_snapshot_id)) [
            | inl absent ↦ rw (found, joined, waits, absent, claim_run) (λ kept. kept)
            | inr (n, frozen) ↦
                rw (found, joined, waits, frozen, claim_run)
                  (λ kept. record {
                    consistent = kept;
                    row = mark_running n now q;
                    found =
                        find-update (is_run run_id) (λ x. x.id == run_id && is_waiting x.status)
                          (mark_running n now) s.runs q (λ x. refl) found
                        ∙ ap some (rw (find-passes (is_run run_id) s.runs q found, waits) refl);
                    running = refl;
                  })
          ]
    ]
  ]
]

pub claim_run-Claimed :
    (run_id : String) (now : ℕ) (s : Tasks)
    → IsConsistent s
    → Claimed run_id (claim_run run_id now s)
claim_run-Claimed run_id now s v = claimed run_id now s v (claim_run-IsConsistent run_id now s v)
