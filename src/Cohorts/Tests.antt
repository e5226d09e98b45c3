-- ===== src/Cohorts/Tests.antt =====
-- Small runs of the cohort store, and the theorems at them.
use code_fixer.Base.{String, [], ◌≡◌, refl}
use code_fixer.Base.Result.{err}
use code_fixer.Cohorts.Table.{
  Cohorts, revision_conflict as revision_error, not_leader, cohort_resolved,
}
use code_fixer.Cohorts.Store.{
  join_or_create, resolve, fail, answer, create_cohort, insert_member, resolve_locked, get_for_task,
  member_count, settle_revision, new_cohort,
}
use code_fixer.Cohorts.Calls.{Calls, done, more, joins, resolves_as, fails}
use code_fixer.Cohorts.Baseline.{AllDecided, HasRevision, decided, revision_immutable}

calls : Unit {0}
unfolding join_or_create resolve fail get_for_task member_count answer create_cohort insert_member
    resolve_locked
calls = tt

abbrev nothing : Cohorts
nothing = record { cohorts = []; members = [] }

abbrev kept : String → String
kept s = s

abbrev joined : Cohorts
joined =
    (join_or_create "c2" "k" "git" "run-2" 2000 1_000
      (join_or_create "c1" "k" "git" "run-1" 2000 0 nothing).1).1

abbrev resolved : Cohorts
resolved = (resolve kept "c1" "run-1" "abc" 2_000 joined).1

-- The second run follows in the first run's cohort, and only the leader resolves it, once.
follows :
    (member_count "c1" joined ≡ 2)
    × ((resolve kept "c1" "run-2" "abc" 2_000 joined).0 ≡ err not_leader)
    × ((resolve kept "c1" "run-1" "def" 3_000 resolved).0 ≡ err revision_error)
    × ((fail "c1" "run-1" "{}" 3_000 resolved).0 ≡ err cohort_resolved)
unfolding calls
follows = (refl, refl, refl, refl)

-- A run that joins after the deadline starts a cohort of its own.
late :
    (member_count "c3" (join_or_create "c3" "k" "git" "run-3" 2000 2_000_000 joined).1 ≡ 1)
    × (member_count "c1" (join_or_create "c3" "k" "git" "run-3" 2000 2_000_000 joined).1 ≡ 2)
unfolding calls
late = (refl, refl)

history : Calls kept nothing resolved
history =
    more
      (more (more done (joins "c1" "k" "git" "run-1" 2000 0))
        (joins "c2" "k" "git" "run-2" 2000 1_000))
      (resolves_as "c1" "run-1" "abc" 2_000)

decided_example : AllDecided resolved.cohorts
decided_example = decided resolved history

revision_immutable_example :
    HasRevision "c1" "abc" (fail "c1" "run-1" "{}" 3_000 resolved).1.cohorts
unfolding calls
revision_immutable_example =
    revision_immutable {strip = kept} "c1" "abc" resolved (fail "c1" "run-1" "{}" 3_000 resolved).1
      (more done (fails "c1" "run-1" "{}" 3_000))
      (settle_revision "abc" 2_000 (new_cohort "c1" "k" "git" "run-1" 2000 0), refl, refl)
