-- ===== src/Scheduler/Lowest.antt =====
-- The interval of a provider is the lowest of the projects that poll it.
use code_fixer.Base.{
  ℕ, ◌≤◌, String, Bool, true, false, not, Option, none, some, List, [], ◌∷◌, ◌==◌, text_eq,
  number_eq, if◌then◌else◌, any, All, ◌≡◌, refl, sym, ap, subst, ◌∙◌, arith, Bool-cases, inl, inr,
  eq_iff,
}
use code_fixer.Base.Text.{strip}
use code_fixer.Scheduler.Intervals.{
  ScheduledProject, at_least, smaller, lookup, put, or_interval, add_rule, add_rules, add_project,
  add_projects, active_provider_intervals,
}

lookup-put :
    (p k : String) (a : ℕ) (d : List (String × ℕ))
    → lookup p (put k a d) ≡ (if k == p then some a else lookup p d)
lookup-put p k a [] = ground arith
lookup-put p k a ((j, b) ∷ d) = elim (Bool-cases (j == k)) [
  | inl same ↦ rw (same, (eq_iff j k).0 same) (ground arith)
  | inr other ↦ elim (Bool-cases (j == p)) [
    | inl here ↦
        let apart : (k == p) ≡ false = ground (arith, eq_iff j k, eq_iff j p, eq_iff k p) in
        rw (other, here, apart) refl
    | inr there ↦ rw (other, there) (lookup-put p k a d)
  ]
]

-- The rule names the provider.
abbrev pub polls : String → String → Bool
polls p rule = strip rule == p

-- An interval beside one that is there already.
abbrev lower : ℕ → Option ℕ → Option ℕ
lower i o = some (smaller i (or_interval o i))

abbrev lowered : String → ℕ → List String → Option ℕ → Option ℕ
lowered p i [] o = o
lowered p i (rule ∷ rules) o = lowered p i rules (if polls p rule then lower i o else o)

abbrev lowest : String → List ScheduledProject → Option ℕ → Option ℕ
lowest p [] o = o
lowest p (project ∷ projects) o = lowest p projects (
    if project.enabled
    then lowered p (at_least 60 project.poll_interval_seconds) project.rules o
    else o)

module _ (p : String) (named : (p == "") ≡ false) where
  add_rule-lookup :
      (i : ℕ) (rule : String) (d : List (String × ℕ))
      → lookup p (add_rule i rule d) ≡ (if polls p rule then lower i (lookup p d) else lookup p d)
  unfolding add_rule
  add_rule-lookup i rule d = elim (Bool-cases (strip rule == "")) [
    | inl bare ↦
        let apart : (strip rule == p) ≡ false =
          ground (arith, eq_iff (strip rule) "", eq_iff (strip rule) p, eq_iff p "") in
        rw (bare, apart, add_rule) refl
    | inr full ↦
        rw (full, add_rule)
          (lookup-put p (strip rule) (smaller i (or_interval (lookup (strip rule) d) i)) d
            ∙ elim (Bool-cases (strip rule == p)) [
              | inl same ↦ rw ((eq_iff (strip rule) p).0 same) refl
              | inr other ↦ rw other refl
            ])
  ]

  add_rules-lookup :
      (i : ℕ) (rules : List String) (d : List (String × ℕ))
      → lookup p (add_rules i rules d) ≡ lowered p i rules (lookup p d)
  unfolding add_rules
  add_rules-lookup i [] d = refl
  add_rules-lookup i (rule ∷ rules) d =
      add_rules-lookup i rules (add_rule i rule d)
      ∙ ap (lowered p i rules) (add_rule-lookup i rule d)

  add_projects-lookup :
      (projects : List ScheduledProject) (d : List (String × ℕ))
      → lookup p (add_projects projects d) ≡ lowest p projects (lookup p d)
  unfolding add_projects add_project
  add_projects-lookup [] d = refl
  add_projects-lookup (project ∷ projects) d =
      add_projects-lookup projects
        (if not project.enabled then d else add_rules interval project.rules d)
      ∙ ap (lowest p projects) (elim (Bool-cases project.enabled) [
        | inl on ↦ rw on (add_rules-lookup interval project.rules d)
        | inr off ↦ rw off refl
      ])
    where
      interval : ℕ
      interval = at_least 60 project.poll_interval_seconds

-- The interval is one of the two, if there is one, and at most the first.
abbrev Under : ℕ → Option ℕ → Type 0
Under n none = Unit {0}
Under n (some m) = n ≤ m

abbrev Minute : Option ℕ → Type 0
Minute none = Unit {0}
Minute (some m) = 60 ≤ m

module _ (p : String) where
  lowered-Minute :
      (i : ℕ) (rules : List String) (o : Option ℕ)
      → 60 ≤ i
      → Minute o
      → Minute (lowered p i rules o)
  lowered-Minute i [] o long h = h
  lowered-Minute i (rule ∷ rules) o long h =
      lowered-Minute i rules (if polls p rule then lower i o else o) long (step (polls p rule) o h)
    where
      step : (b : Bool) (o : Option ℕ) → Minute o → Minute (if b then lower i o else o)
      step true none h = ground arith
      step true (some m) h = ground arith
      step false o h = h

  -- A later rule only lowers the interval.
  lowered-Under :
      (n i : ℕ) (rules : List String) (o : Option ℕ) → Under n (lowered p i rules o) → Under n o
  lowered-Under n i [] o h = h
  lowered-Under n i (rule ∷ rules) o h =
      step (polls p rule) o (lowered-Under n i rules (if polls p rule then lower i o else o) h)
    where
      step : (b : Bool) (o : Option ℕ) → Under n (if b then lower i o else o) → Under n o
      step true none g = tt
      step true (some m) g = ground arith
      step false o g = g

  lowered-polls :
      (n i : ℕ) (rules : List String) (o : Option ℕ)
      → Under n (lowered p i rules o)
      → any (polls p) rules ≡ true
      → n ≤ i
  lowered-polls n i [] o h g = absurd (ground arith)
  lowered-polls n i (rule ∷ rules) o h g = elim (Bool-cases (polls p rule)) [
    | inl hit ↦ under o (
        lowered-Under n i rules (lower i o)
          (subst (λ b. Under n (lowered p i rules (if b then lower i o else o))) hit h))
    | inr miss ↦ lowered-polls n i rules (if polls p rule then lower i o else o) h (ground arith)
  ]
    where
      under : (o : Option ℕ) → Under n (lower i o) → n ≤ i
      under none g = ground arith
      under (some m) g = ground arith

  lowest-Minute :
      (projects : List ScheduledProject) (o : Option ℕ) → Minute o → Minute (lowest p projects o)
  lowest-Minute [] o h = h
  lowest-Minute (project ∷ projects) o h = lowest-Minute projects _ (
      step project.enabled (
        lowered-Minute (at_least 60 project.poll_interval_seconds) project.rules o (ground arith)
          h))
    where
      step :
          (b : Bool)
          → Minute (lowered p (at_least 60 project.poll_interval_seconds) project.rules o)
          → Minute (
              if b
              then lowered p (at_least 60 project.poll_interval_seconds) project.rules o
              else o)
      step true g = g
      step false g = h

  lowest-Under :
      (n : ℕ) (projects : List ScheduledProject) (o : Option ℕ)
      → Under n (lowest p projects o)
      → Under n o
  lowest-Under n [] o h = h
  lowest-Under n (project ∷ projects) o h = step project.enabled (lowest-Under n projects _ h)
    where
      step :
          (b : Bool)
          → Under n (
              if b
              then lowered p (at_least 60 project.poll_interval_seconds) project.rules o
              else o)
          → Under n o
      step true g = lowered-Under n (at_least 60 project.poll_interval_seconds) project.rules o g
      step false g = g

  lowest-polls :
      (n : ℕ) (projects : List ScheduledProject) (o : Option ℕ)
      → Under n (lowest p projects o)
      → All
          (λ x.
            x.enabled ≡ true
            → any (polls p) x.rules ≡ true
            → n ≤ at_least 60 x.poll_interval_seconds)
          projects
  lowest-polls n [] o h = tt
  lowest-polls n (project ∷ projects) o h = (
    (λ on hit.
        lowered-polls n (at_least 60 project.poll_interval_seconds) project.rules o
          (subst
            (λ b. Under n (
              if b
              then lowered p (at_least 60 project.poll_interval_seconds) project.rules o
              else o))
            on (lowest-Under n projects _ h))
          hit),
    lowest-polls n projects _ h,
  )

-- The interval of a provider with a name is at least a minute, and at most the interval of every
-- enabled project with a rule for it, where a project's interval counts as at least a minute.
pub active_provider_intervals_lowest :
    (p : String) (projects : List ScheduledProject) (n : ℕ)
    → (p == "") ≡ false
    → lookup p (active_provider_intervals projects) ≡ some n
    → (60 ≤ n)
      × All
          (λ x.
            x.enabled ≡ true
            → any (polls p) x.rules ≡ true
            → n ≤ at_least 60 x.poll_interval_seconds)
          projects
unfolding active_provider_intervals
active_provider_intervals_lowest p projects n named h =
    let same : lowest p projects none ≡ some n =
      sym (add_projects-lookup p named projects []) ∙ h in
    (
      subst Minute same (lowest-Minute p projects none tt),
      lowest-polls p n projects none (subst (Under n) (sym same) (omega arith)),
    )
