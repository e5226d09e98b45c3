-- ===== src/Leases/Tests.antt =====
-- Leases at small tables, calls that interleave, and the theorems at them.
use code_fixer.Base.{List, [], ◌∷◌, ◌==◌, text_eq, ◌≡◌, refl, arith, eq_iff, All, map}
use code_fixer.Base.Table.{find, select}
use code_fixer.Base.Result.{ok, err}
use code_fixer.Leases.{
  WorkerLease, Attempt, lease_busy, integrity_error, for_key, look, write, acquire, heartbeat,
  release,
}
use code_fixer.Leases.Attempts.{Held}
use code_fixer.Leases.Workers.{Workers, looks, releases, Others, unmoved, moved}
use code_fixer.Leases.Exclusion.{acquire_excludes, other_key_kept}

calls : Unit {0}
unfolding look write acquire heartbeat release
calls = tt

abbrev taken : List WorkerLease
taken = (acquire "refresh" "w1" 300 0 []).1

-- An expired lease is taken over, one in force is not.
takeover :
    ((acquire "refresh" "w2" 300 300_000_000 taken).0 ≡ ok tt)
    × ((acquire "refresh" "w2" 300 299_000_000 taken).0 ≡ err lease_busy)
unfolding calls
takeover = (refl, refl)

abbrev late : Attempt
late = look "refresh" "w2" 300 300_000_000 taken

abbrev later : Attempt
later = look "refresh" "w3" 300 300_000_001 taken

-- Two workers that both read the expired lease both acquire it, and the table names the last one.
both_acquire :
    ((write late taken).0 ≡ ok tt)
    × ((write later (write late taken).1).0 ≡ ok tt)
    × (map (λ l. l.owner) (write later (write late taken).1).1 ≡ "w3" ∷ [])
unfolding calls
both_acquire = (refl, refl, refl)

-- A worker that read a lease which is released before its write returns without a lease, and a worker
-- that read no lease is refused by the primary key once there is one.
after_the_look :
    (write late (release "refresh" "w1" taken) ≡ (ok tt, []))
    × (write (look "refresh" "w2" 300 5 []) taken ≡ (err integrity_error, taken))
unfolding calls
after_the_look = (refl, refl)

-- The first worker looks where nobody holds a lease, and no other call is pending.
abbrev own : Attempt
own = look "refresh" "w1" 300 0 []

abbrev idle : Workers
idle = record { leases = []; attempts = [] }

abbrev held : Workers
held = record { leases = taken; attempts = [] }

abbrev early : Attempt
early = look "refresh" "w2" 300 299_000_000 taken

abbrev pending : Workers
pending = record { leases = release "refresh" "w2" taken; attempts = early ∷ [] }

-- Another worker reads the lease, and releases what it does not hold.
disturbed : Others "refresh" "w1" 300_000_000 held pending
unfolding calls
disturbed =
    moved (moved unmoved (looks "refresh" "w2" 300 299_000_000 refl (omega arith)))
      (releases "refresh" "w2" refl)

acquire_excludes_example :
    Held "refresh" "w1" 300_000_000 pending.leases
    × All
        (λ x. write x pending.leases ≡ (err lease_busy, pending.leases))
        (select (λ x. x.resource_key == "refresh") pending.attempts)
unfolding calls
acquire_excludes_example = acquire_excludes own idle pending refl refl refl disturbed

other_key_kept_example :
    (find (for_key "refresh") (acquire "other" "w2" 300 5 taken).1 ≡ find (for_key "refresh") taken)
    × (find (for_key "refresh") (heartbeat "other" "w2" 300 5 taken).1
        ≡ find (for_key "refresh") taken)
    × (find (for_key "refresh") (release "other" "w2" taken) ≡ find (for_key "refresh") taken)
other_key_kept_example =
    other_key_kept "other" "refresh" (λ e. ground (arith, eq_iff "other" "refresh")) "w2" 300 5
      taken
