-- ===== src/Leases/Attempts.antt =====
-- An acquisition of a lease, from its SELECT to its write: what it gains, what bars it, and that it
-- leaves the leases of other keys alone.
use code_fixer.Base.{
  ℕ, ◌+◌, ◌<◌, ◌≤◌, String, true, false, not, ◌&&◌, some, List, ltb, any, ◌==◌, text_eq, number_eq,
  ◌≡◌, refl, sym, ap, ◌∙◌, arith, inl, inr, Bool-cases, Option-cases, eq_iff, eq_self,
}
use code_fixer.Base.Table.{find, update}
use code_fixer.Base.Query.{
  find-passes, find-update, find-snoc, find-any, any-update, find-snoc_other, find-update_other,
}
use code_fixer.Base.Result.{ok, err}
use code_fixer.Leases.{
  WorkerLease, Attempt, lease_busy, microseconds, for_key, take, new_lease, write,
}

-- The lease of the owner on the key, until at least the given time.
abbrev pub Held : (resource_key owner : String) (until : ℕ) → List WorkerLease → Type 0
Held resource_key owner until leases =
    (row : WorkerLease) × (find (for_key resource_key) leases ≡ some row)
    × (row.owner ≡ owner)
    × (until ≤ row.expires_at)

-- An acquisition of the key that read a lease in force of another owner.
abbrev pub Barred : String → Attempt → Type 0
Barred resource_key x =
    (x.resource_key == resource_key) ≡ true
    → (row : WorkerLease) × (x.row ≡ some row)
      × (x.now < row.expires_at)
      × ((row.owner == x.owner) ≡ false)

pub write-Barred :
    (resource_key : String) (x : Attempt) (leases : List WorkerLease)
    → Barred resource_key x
    → (x.resource_key == resource_key) ≡ true
    → write x leases ≡ (err lease_busy, leases)
unfolding write
write-Barred resource_key x leases barred h =
    let (row, read, early, other) = barred h in rw (read, write) (ground (arith, early, other))

-- A write that succeeds leaves its lease, unless the row that it read is gone.
pub own-Held :
    (x : Attempt) (leases : List WorkerLease)
    → (write x leases).0 ≡ ok tt
    → any (for_key x.resource_key) (write x leases).1 ≡ true
    → Held x.resource_key x.owner (x.now + microseconds x.ttl_seconds) (write x leases).1
unfolding write
own-Held x leases h there = elim (Option-cases x.row) [
  | inl none_read ↦ elim (Bool-cases (any (for_key x.resource_key) leases)) [
    | inl taken ↦ absurd (ground arith)
    | inr free ↦ (
      new_lease x,
      rw (none_read, free, write)
          (find-snoc (for_key x.resource_key) leases (new_lease x) free (eq_self x.resource_key)),
      refl,
      omega arith,
    )
  ]
  | inr (row, read) ↦ elim (Bool-cases (ltb x.now row.expires_at && not (row.owner == x.owner))) [
    | inl busy ↦ absurd (ground arith)
    | inr free ↦
        let wrote : (write x leases).1
            ≡ update (for_key x.resource_key) (take x.owner x.ttl_seconds x.now) leases =
          rw (read, free, write) refl in
        let (now_row, found) = find-any (for_key x.resource_key) leases (
          sym (
            ap (any (for_key x.resource_key)) wrote
            ∙ any-update (for_key x.resource_key) (for_key x.resource_key) (for_key x.resource_key)
                (take x.owner x.ttl_seconds x.now) leases (λ l. ground arith))
          ∙ there) in
        let keyed = find-passes (for_key x.resource_key) leases now_row found in
        let written =
          find-update (for_key x.resource_key) (for_key x.resource_key)
            (take x.owner x.ttl_seconds x.now) leases now_row (λ l. refl) found in
        (
          take x.owner x.ttl_seconds x.now now_row,
          ground (arith, wrote, keyed, written),
          refl,
          omega arith,
        )
  ]
]

pub for_other :
    (resource_key other : String) (l : WorkerLease)
    → (resource_key == other) ≡ false
    → for_key resource_key l ≡ true
    → for_key other l ≡ false
for_other resource_key other l differ h = ground (
  arith,
  eq_iff l.resource_key resource_key,
  eq_iff l.resource_key other,
  eq_iff resource_key other,
)

pub other_kept-write :
    (other : String) (x : Attempt) (leases : List WorkerLease)
    → (x.resource_key == other) ≡ false
    → find (for_key other) (write x leases).1 ≡ find (for_key other) leases
unfolding write
other_kept-write other x leases differ = elim (Option-cases x.row) [
  | inl absent ↦
      rw (absent, write)
        (elim (Bool-cases (any (for_key x.resource_key) leases)) [
          | inl there ↦ rw there refl
          | inr free ↦ rw free (find-snoc_other (for_key other) leases (new_lease x) differ)
        ])
  | inr (row, read) ↦
      rw (read, write)
        (elim (Bool-cases (ltb x.now row.expires_at && not (row.owner == x.owner))) [
          | inl busy ↦ rw busy refl
          | inr free ↦ rw free (
              find-update_other (for_key other) (for_key x.resource_key)
                (take x.owner x.ttl_seconds x.now) leases
                (λ l h. let e = for_other x.resource_key other l differ h in (e, e)))
        ])
]
