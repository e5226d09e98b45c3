-- ===== src/Leases/Exclusion.antt =====
-- The mutual exclusion of worker leases, where acquisitions are interrupted between their SELECT and
-- their write.
use code_fixer.Base.{
  ℕ, ◌+◌, ◌<◌, String, true, false, ◌&&◌, some, List, ltb, any, All, ◌==◌, text_eq, number_eq, ◌≡◌,
  ◌≢◌, refl, sym, subst, ◌∙◌, arith, inl, inr, Bool-cases, eq_iff,
}
use code_fixer.Base.Table.{find, select, count}
use code_fixer.Base.Query.{
  find-passes, find-update, find-update_other, find-delete_other, All-map, find-delete_kept,
  All-snoc, All-without, All-of-none, All-select,
}
use code_fixer.Base.Result.{ok, err}
use code_fixer.Leases.{
  WorkerLease, Attempt, lease_busy, microseconds, for_key, held_by, take, look, write, acquire,
  heartbeat, release,
}
use code_fixer.Leases.Attempts.{Held, Barred, write-Barred, own-Held, for_other, other_kept-write}
use code_fixer.Leases.Workers.{
  Workers, OtherStep, looks, writes, beats, releases, Others, unmoved, moved,
}

module _ (resource_key other : String) (differ : resource_key ≢ other) where
  not_same : (resource_key == other) ≡ false
  not_same = ground (arith, eq_iff resource_key other, differ)

  held_for_other :
      (owner : String) (l : WorkerLease)
      → held_by resource_key owner l ≡ true
      → for_key other l ≡ false
  held_for_other owner l h = for_other resource_key other l not_same (ground arith)

  other_kept-acquire :
      (owner : String) (ttl_seconds now : ℕ) (leases : List WorkerLease)
      → find (for_key other) (acquire resource_key owner ttl_seconds now leases).1
        ≡ find (for_key other) leases
  unfolding acquire look
  other_kept-acquire owner ttl_seconds now leases =
      other_kept-write other (look resource_key owner ttl_seconds now leases) leases not_same

  -- What an acquisition, a heartbeat or a release of one key does to the lease of another key:
  -- nothing.
  pub other_key_kept :
      (owner : String) (ttl_seconds now : ℕ) (leases : List WorkerLease)
      → (find (for_key other) (acquire resource_key owner ttl_seconds now leases).1
          ≡ find (for_key other) leases)
        × (find (for_key other) (heartbeat resource_key owner ttl_seconds now leases).1
            ≡ find (for_key other) leases)
        × (find (for_key other) (release resource_key owner leases) ≡ find (for_key other) leases)
  unfolding heartbeat release
  other_key_kept owner ttl_seconds now leases =
      let beat =
        find-update_other (for_key other) (held_by resource_key owner) (take owner ttl_seconds now)
          leases (λ l h. (held_for_other owner l h, held_for_other owner l h)) in
      (
        other_kept-acquire owner ttl_seconds now leases,
        ground (arith, beat),
        find-delete_other (for_key other) (held_by resource_key owner) leases
            (held_for_other owner),
      )

module _ (resource_key owner : String) (until : ℕ) where
  abbrev Guarded : Workers → Type 0
  Guarded s = Held resource_key owner until s.leases × All (Barred resource_key) s.attempts

  look-Barred :
      (key other : String) (ttl_seconds now : ℕ) (leases : List WorkerLease)
      → (key == resource_key && other == owner) ≡ false
      → now < until
      → Held resource_key owner until leases
      → Barred resource_key (look key other ttl_seconds now leases)
  unfolding look
  look-Barred key other ttl_seconds now leases foreign early (row, found, owned, later) same = (
    row,
    subst (λ k. find (for_key k) leases ≡ some row) (sym ((eq_iff key resource_key).0 same)) found,
    omega arith,
    ground (arith, owned, eq_iff row.owner other, eq_iff other owner),
  )

  write-Held :
      (x : Attempt) (leases : List WorkerLease)
      → Barred resource_key x
      → Held resource_key owner until leases
      → Held resource_key owner until (write x leases).1
  write-Held x leases barred (row, found, owned, later) =
      elim (Bool-cases (x.resource_key == resource_key)) [
        | inl same ↦ rw (write-Barred resource_key x leases barred same) (row, found, owned, later)
        | inr differ ↦ (row, other_kept-write resource_key x leases differ ∙ found, owned, later)
      ]

  heartbeat-Held :
      (key other : String) (ttl_seconds now : ℕ) (leases : List WorkerLease)
      → ((key == resource_key && other == owner) && ltb (now + microseconds ttl_seconds) until)
        ≡ false
      → Held resource_key owner until leases
      → Held resource_key owner until (heartbeat key other ttl_seconds now leases).1
  unfolding heartbeat
  heartbeat-Held key other ttl_seconds now leases long (row, found, owned, later) =
      elim (Bool-cases (count (held_by key other) leases == 1)) [
        | inr lost ↦ rw (lost, heartbeat) (row, found, owned, later)
        | inl one ↦
            let written =
              find-update (for_key resource_key) (held_by key other) (take other ttl_seconds now)
                leases row (λ x. refl) found in
            let keyed = find-passes (for_key resource_key) leases row found in
            rw (one, heartbeat)
              (elim (Bool-cases (held_by key other row)) [
                | inr miss ↦ (row, ground (arith, written, miss), owned, later)
                | inl hit ↦ (
                  take other ttl_seconds now row,
                  ground (arith, written, hit),
                  ground (arith, owned, eq_iff row.owner other),
                  ground (
                    arith,
                    owned,
                    eq_iff row.owner other,
                    eq_iff other owner,
                    eq_iff row.resource_key resource_key,
                    eq_iff row.resource_key key,
                    eq_iff key resource_key,
                  ),
                )
              ])
      ]

  release-Held :
      (key other : String) (leases : List WorkerLease)
      → (key == resource_key && other == owner) ≡ false
      → Held resource_key owner until leases
      → Held resource_key owner until (release key other leases)
  unfolding release
  release-Held key other leases foreign (row, found, owned, later) = (
    row,
    find-delete_kept (for_key resource_key) (held_by key other) leases row found (
        ground (
          arith,
          find-passes (for_key resource_key) leases row found,
          owned,
          eq_iff row.owner other,
          eq_iff other owner,
          eq_iff row.resource_key resource_key,
          eq_iff row.resource_key key,
          eq_iff key resource_key,
        )),
    owned,
    later,
  )

  OtherStep-Guarded :
      {s t : Workers} → OtherStep resource_key owner until s t → Guarded s → Guarded t
  OtherStep-Guarded {s} (looks key other ttl_seconds now foreign early) (held, barred) = (
    held,
    All-snoc (Barred resource_key) s.attempts _ barred
        (look-Barred key other ttl_seconds now s.leases foreign early held),
  )
  OtherStep-Guarded {s} (writes before after x at) (held, barred) =
      let (one, rest) =
        All-without (Barred resource_key) before x after
          (subst (All (Barred resource_key)) at barred) in
      (write-Held x s.leases one held, rest)
  OtherStep-Guarded {s} (beats key other ttl_seconds now long) (held, barred) =
      (heartbeat-Held key other ttl_seconds now s.leases long held, barred)
  OtherStep-Guarded {s} (releases key other foreign) (held, barred) =
      (release-Held key other s.leases foreign held, barred)

  Others-Guarded : {s t : Workers} → Others resource_key owner until s t → Guarded s → Guarded t
  Others-Guarded unmoved h = h
  Others-Guarded (moved history call) h = OtherStep-Guarded call (Others-Guarded history h)

-- Mutual exclusion: the write of an acquisition succeeds and leaves its lease in the table, while no
-- other acquisition of the key is pending between its SELECT and its write. Then, as long as every
-- further SELECT comes before the expiry and the owner neither acquires the key again, releases it
-- nor sets an earlier expiry by a heartbeat, whatever steps are taken in whatever order, the key's
-- lease is the owner's and ends no earlier than that expiry, and every acquisition of the key that is
-- pending raises LeaseBusyError at its write and changes nothing.
pub acquire_excludes :
    (x : Attempt) (s t : Workers)
    → (write x s.leases).0 ≡ ok tt
    → any (for_key x.resource_key) (write x s.leases).1 ≡ true
    → any (λ y. y.resource_key == x.resource_key) s.attempts ≡ false
    → Others x.resource_key x.owner
        (x.now + microseconds x.ttl_seconds)
        (record s { leases = (write x s.leases).1 })
        t
    → Held x.resource_key x.owner (x.now + microseconds x.ttl_seconds) t.leases
      × All
          (λ y. write y t.leases ≡ (err lease_busy, t.leases))
          (select (λ y. y.resource_key == x.resource_key) t.attempts)
acquire_excludes x s t h there alone history =
    let (held, barred) =
      Others-Guarded x.resource_key x.owner (x.now + microseconds x.ttl_seconds) history (
        own-Held x s.leases h there,
        All-of-none (λ y. y.resource_key == x.resource_key)
            (λ y.
              (row : WorkerLease) × (y.row ≡ some row)
              × (y.now < row.expires_at)
              × ((row.owner == y.owner) ≡ false))
            s.attempts alone,
      ) in
    (
      held,
      All-select (λ y. write y t.leases ≡ (err lease_busy, t.leases))
          (λ y. y.resource_key == x.resource_key) t.attempts
          (All-map (Barred x.resource_key)
            (λ y.
              (y.resource_key == x.resource_key) ≡ true
              → write y t.leases ≡ (err lease_busy, t.leases))
            (λ y bars. write-Barred x.resource_key y t.leases bars) t.attempts barred),
    )
