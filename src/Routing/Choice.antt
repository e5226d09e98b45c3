-- ===== src/Routing/Choice.antt =====
-- A ticket is matched to the only project that offers the highest priority.
use code_fixer.Base.{
  ℕ, String, Bool, true, false, ◌&&◌, ◌||◌, Option, none, some, List, [], ◌∷◌, map, ◌==◌, text_eq,
  elem, if◌then◌else◌, All, ◌≡◌, refl, sym, ap, subst, ◌∙◌, arith, Bool-cases, Option-cases, inl,
  inr, eq_iff, eq_self,
}
use code_fixer.Base.Integers.{ℤ, at_most, at_most_self, at_most_trans, at_most_total}
use code_fixer.Base.Table.{find, select}
use code_fixer.Base.Result.{Result, ok, err}
use code_fixer.Routing.Value.{Value, get}
use code_fixer.Routing.Match.{RouteError, timestamp}
use code_fixer.Routing.Route.{
  Ticket, RoutingProject, RouteKind, RouteDecision, Candidate, Scan, no_scan, top_priority,
  has_priority, unique, before_intake, choose, decide_from, decide, scan_projects, route_ticket,
}
use code_fixer.Routing.Scans.{offers, scan_projects-offers}

abbrev pub matched_to : String → RouteDecision
matched_to id = record { kind = RouteKind.matched; project_id = some id; failure = none }

-- The priority `best` is the highest, every candidate that has it is of the project, and the first of
-- them did not start its intake after the ticket was created.
pub record Chosen (created : Option ℕ) (id : String) (candidates : List Candidate) : Type 0 where
  pub best : ℤ
  pub highest : All (λ c. at_most c.priority best ≡ true) candidates
  pub alone : All (λ c. at_most best c.priority ≡ true → c.project_id ≡ id) candidates
  pub candidate : Candidate
  pub found : find (λ c. has_priority best c && c.project_id == id) candidates ≡ some candidate
  pub in_time : before_intake created candidate.intake ≡ false

module _ {A : Type 0} where
  All-select_if :
      (P : A → Type 0) (q : A → Bool) (xs : List A)
      → All P (select q xs)
      → All (λ x. q x ≡ true → P x) xs
  All-select_if P q [] h = tt
  All-select_if P q (x ∷ xs) h = split (q x) h (λ g. All-select_if P q xs g)
    where
      split :
          (b : Bool)
          → All P (let rest = select q xs in if b then x ∷ rest else rest)
          → (All P (select q xs) → All (λ y. q y ≡ true → P y) xs)
          → (b ≡ true → P x) × All (λ y. q y ≡ true → P y) xs
      split true (here, rest) later = ((λ e. here), later rest)
      split false rest later = ((λ e. absurd (ground arith)), later rest)

  find-select : (p q : A → Bool) (xs : List A) → find p (select q xs) ≡ find (λ x. q x && p x) xs
  find-select p q [] = refl
  find-select p q (x ∷ xs) = ground (arith, find-select p q xs)

All-both :
    {A : Type 0} (P Q R : A → Type 0)
    → ((x : A) → P x → Q x → R x)
    → (xs : List A) → All P xs
    → All Q xs
    → All R xs
All-both P Q R f [] h g = tt
All-both P Q R f (x ∷ xs) (h, hs) (g, gs) = (f x h g, All-both P Q R f xs hs gs)

elem-unique : (x : String) (xs : List String) → elem x (unique xs) ≡ elem x xs
elem-unique x [] = refl
elem-unique x (y ∷ ys) = elim (Bool-cases (y == x)) [
  | inl same ↦ rw ((eq_iff y x).0 same) (ground (arith, elem-unique x ys, eq_self x))
  | inr other ↦ ground (arith, elem-unique x ys)
]

All-elem :
    (id : String) (xs : List String)
    → ((x : String) → elem x xs ≡ true → x ≡ id)
    → All (λ x. x ≡ id) xs
All-elem id [] h = tt
All-elem id (x ∷ xs) h =
    (h x (ground (arith, eq_self x)), All-elem id xs (λ y e. h y (ground arith)))

All-unique : (id : String) (xs : List String) → unique xs ≡ id ∷ [] → All (λ x. x ≡ id) xs
All-unique id xs h = All-elem id xs (λ x e.
    let one : elem x (unique xs) ≡ (id == x || false) = ap (elem x) h in
    ground (arith, elem-unique x xs, eq_iff id x))

unmapped :
    {A B : Type 0} (P : B → Type 0) (f : A → B) (xs : List A)
    → All P (map f xs)
    → All (λ x. P (f x)) xs
unmapped P f [] h = tt
unmapped P f (x ∷ xs) (here, rest) = (here, unmapped P f xs rest)

higher :
    (a b : ℤ)
    → (at_most a (if at_most b a then a else b) ≡ true)
      × (at_most b (if at_most b a then a else b) ≡ true)
higher a b = elim (Bool-cases (at_most b a)) [
  | inl under ↦ rw under (at_most_self a, under)
  | inr over ↦ rw over (at_most_total b a over, at_most_self b)
]

top_priority-highest :
    (best : ℤ) (cs : List Candidate)
    → (at_most best (top_priority best cs) ≡ true)
      × All (λ c. at_most c.priority (top_priority best cs) ≡ true) cs
top_priority-highest best [] = (at_most_self best, tt)
top_priority-highest best (c ∷ cs) =
    let next : ℤ = if at_most c.priority best then best else c.priority in
    let (left, right) = higher best c.priority in
    let (h, g) = top_priority-highest next cs in
    (at_most_trans best next _ left h, (at_most_trans c.priority next _ right h, g))

-- What the choice among the candidates of the highest priority gives, if it is a match.
choose-matched :
    (created : Option ℕ) (id : String) (top : List Candidate) (ids : List String)
    → choose created top ids ≡ ok (matched_to id)
    → (ids ≡ id ∷ [])
      × (c : Candidate) × (find (λ c. c.project_id == id) top ≡ some c)
      × (before_intake created c.intake ≡ false)
choose-matched created id top [] h = absurd (ground arith)
choose-matched created id top (x ∷ y ∷ rest) h = absurd (ground arith)
choose-matched created id top (x ∷ []) h = elim (Option-cases (find (λ c. c.project_id == x) top)) [
  | inl absent ↦ absurd (ground arith)
  | inr (c, found) ↦ elim (Bool-cases (before_intake created c.intake)) [
    | inl early ↦ absurd (ground arith)
    | inr fine ↦
        let same : x ≡ id = ground arith in
        (
          ap (λ i. i ∷ []) same,
          c,
          subst (λ i. find (λ k. k.project_id == i) top ≡ some c) same found,
          fine,
        )
  ]
]

decide_from-Chosen :
    (created : Option ℕ) (id : String) (s : Scan) (cs : List Candidate)
    → decide_from created s cs ≡ ok (matched_to id)
    → Chosen created id cs
decide_from-Chosen created id s [] h = absurd (ground arith)
decide_from-Chosen created id s (c ∷ cs) h =
    let best : ℤ = top_priority c.priority cs in
    let top = select (has_priority best) (c ∷ cs) in
    let (one, k, found, fine) =
      choose-matched created id top (unique (map (λ x. x.project_id) top)) h in
    let (first, others) = top_priority-highest c.priority cs in
    let highest : All (λ x. at_most x.priority best ≡ true) (c ∷ cs) = (first, others) in
    let own : All (λ x. x.project_id ≡ id) top =
      unmapped (λ i. i ≡ id) (λ x. x.project_id) top
        (All-unique id (map (λ x. x.project_id) top) one) in
    record {
      best = best;
      highest = highest;
      alone =
          All-both (λ x. at_most x.priority best ≡ true)
            (λ x. has_priority best x ≡ true → x.project_id ≡ id)
            (λ x. at_most best x.priority ≡ true → x.project_id ≡ id) (λ x g f e. f (ground arith))
            (c ∷ cs) highest
            (All-select_if (λ x. x.project_id ≡ id) (has_priority best) (c ∷ cs) own);
      candidate = k;
      found = sym (find-select (λ x. x.project_id == id) (has_priority best) (c ∷ cs)) ∙ found;
      in_time = fine;
    }

module _ (repr : Value → String) (parse : String → Option ℕ) (ticket : Ticket)
    (projects : List RoutingProject) where
  -- If a ticket is matched to a project, then among the candidates that the rules of the enabled
  -- projects offer for it, those of the highest priority are all of this project, and the first of
  -- them has an intake that did not start after the creation of the ticket, both times being known.
  pub route_ticket-Chosen :
      (id : String)
      → route_ticket repr parse ticket projects ≡ ok (matched_to id)
      → Chosen
          (timestamp repr parse (get "createdAt" ticket.payload))
          id
          (offers repr parse ticket projects)
  unfolding route_ticket decide
  route_ticket-Chosen id h =
      scanned (scan_projects repr parse ticket projects no_scan) h
        (λ s e. scan_projects-offers repr parse ticket projects s e)
    where
      scanned :
          (r : Result RouteError Scan)
          → (elim r [
            | err e ↦ err e
            | ok s ↦ decide (timestamp repr parse (get "createdAt" ticket.payload)) s
          ])
            ≡ ok (matched_to id)
          → ((s : Scan) → r ≡ ok s → s.candidates ≡ offers repr parse ticket projects)
          → Chosen
              (timestamp repr parse (get "createdAt" ticket.payload))
              id
              (offers repr parse ticket projects)
      scanned (err e) h same = absurd (ground arith)
      scanned (ok s) h same =
          subst (Chosen (timestamp repr parse (get "createdAt" ticket.payload)) id) (same s refl) (
            decide_from-Chosen (timestamp repr parse (get "createdAt" ticket.payload)) id s
              s.candidates h)
