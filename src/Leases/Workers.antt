-- ===== src/Leases/Workers.antt =====
-- Workers whose calls on leases interleave: the table, and the acquisitions that are between their
-- SELECT and their write.
use code_fixer.Base.{ℕ, ◌+◌, ◌<◌, String, false, ◌&&◌, List, [], ◌∷◌, ◌++◌, ltb, ◌==◌, text_eq, ◌≡◌}
use code_fixer.Leases.{WorkerLease, Attempt, microseconds, look, write, heartbeat, release}

pub record Workers : Type 0 where
  pub leases : List WorkerLease
  pub attempts : List Attempt

-- What may happen while an owner holds a key: SELECTs of other acquisitions before the time, writes of
-- the pending acquisitions, heartbeats that leave the owner's lease until the time, and releases by
-- others or of other keys.
pub data OtherStep (resource_key owner : String) (until : ℕ) (s : Workers) : Workers → Type 0 where
  looks :
      (key other : String) (ttl_seconds now : ℕ)
      → (key == resource_key && other == owner) ≡ false
      → now < until
      → OtherStep resource_key owner until s
          (record s { attempts = s.attempts ++ look key other ttl_seconds now s.leases ∷ [] })
  writes :
      (before after : List Attempt) (x : Attempt)
      → s.attempts ≡ before ++ x ∷ after
      → OtherStep resource_key owner until s
          (record s { leases = (write x s.leases).1; attempts = before ++ after })
  beats :
      (key other : String) (ttl_seconds now : ℕ)
      → ((key == resource_key && other == owner) && ltb (now + microseconds ttl_seconds) until)
        ≡ false
      → OtherStep resource_key owner until s
          (record s { leases = (heartbeat key other ttl_seconds now s.leases).1 })
  releases :
      (key other : String)
      → (key == resource_key && other == owner) ≡ false
      → OtherStep resource_key owner until s (record s { leases = release key other s.leases })

-- Any number of such steps.
pub data Others (resource_key owner : String) (until : ℕ) (s : Workers) : Workers → Type 0 where
  unmoved : Others resource_key owner until s s
  moved :
      {t u : Workers}
      → Others resource_key owner until s t
      → OtherStep resource_key owner until t u
      → Others resource_key owner until s u
