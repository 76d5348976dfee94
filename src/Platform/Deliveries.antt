-- ===== src/Platform/Deliveries.antt =====
-- Webhook deliveries come to an end, in whatever order the answers arrive.
use infopunks_trust_layer_ag.Base.{
  ℕ, zero, suc, ◌+◌, ◌-◌, ◌≤◌, ◌<◌, ◌≡◌, refl, ap, sym, ◌⊎◌, inl, inr, String, Bool, true, false,
  Option, none, some, List, [], ◌∷◌, ◌==◌, eq_iff, arith, any, All, length, update_rows, Bool-cases,
}
use infopunks_trust_layer_ag.Platform.Webhooks.{
  Webhook, CloudEvent, DeliveryRow, Job, Rail, Response, list_webhooks, webhook_matches,
  is_delivery, should_retry, concluded_row, new_job, schedule_webhook_retry, jobs_after,
  deliver_webhook, dispatch_webhooks, take_job, Arrival, turn, turns,
}

abbrev pub IsFinal : DeliveryRow → Type 0
IsFinal r = (r.status ≡ "succeeded") ⊎ (r.status ≡ "failed")

abbrev pub has_job : List Job → DeliveryRow → Bool
has_job jobs r = any (λ j. j.delivery_id == r.delivery_id) jobs

-- Every delivery is at its end or has a job.
abbrev pub Tracked : Rail → Type 0
Tracked s = All (λ r. IsFinal r ⊎ (has_job s.jobs r ≡ true)) s.deliveries

-- The attempts that the jobs may still make.
unfoldable pub remaining : List Job → ℕ
remaining [] = 0
remaining (j ∷ js) = suc (j.webhook.max_attempts - j.attempt) + remaining js

-- A job that is taken leaves the others.
abbrev Took : List Job → Option (Job × List Job) → Type 0
Took js none = Unit
Took js (some (j, rest)) =
    (remaining js ≡ suc (j.webhook.max_attempts - j.attempt) + remaining rest)
    × ((p : Job → Bool) → any p js ≡ true → (p j ≡ true) ⊎ (any p rest ≡ true))

Took-later :
    (x : Job) (xs : List Job) (o : Option (Job × List Job))
    → Took xs o
    → Took (x ∷ xs) (elim o [ none ↦ none | some found ↦ some (found.0, x ∷ found.1) ])
unfolding remaining
Took-later x xs none t = tt
Took-later x xs (some (j, rest)) t = (omega (arith, t.0), λ p h. ground (arith, t.1 p))

take_job-Took : (n : ℕ) (js : List Job) → Took js (take_job n js)
unfolding take_job remaining
take_job-Took n [] = tt
take_job-Took zero (x ∷ xs) = (refl, λ p h. ground arith)
take_job-Took (suc n) (x ∷ xs) = Took-later x xs (take_job n xs) (take_job-Took n xs)

concluded_row-IsFinal :
    (base : ℕ) (j : Job) (response : Response) (now later : ℕ) (r : DeliveryRow) (jobs : List Job)
    → r.delivery_id ≡ j.delivery_id
    → let r' = concluded_row base j response now later r in
      IsFinal r' ⊎ (has_job (jobs_after base j response jobs) r' ≡ true)
unfolding concluded_row jobs_after schedule_webhook_retry
concluded_row-IsFinal base j response now later r jobs same =
    ground (arith, eq_iff j.delivery_id r.delivery_id)

jobs_after-any :
    (base : ℕ) (j : Job) (response : Response) (p : Job → Bool) (rest : List Job)
    → any p rest ≡ true
    → any p (jobs_after base j response rest) ≡ true
unfolding jobs_after
jobs_after-any base j response p rest h = ground arith

other_delivery :
    (base : ℕ) (j : Job) (response : Response) (js rest : List Job) (r : DeliveryRow)
    → ((p : Job → Bool) → any p js ≡ true → (p j ≡ true) ⊎ (any p rest ≡ true))
    → is_delivery j.delivery_id r ≡ false
    → IsFinal r ⊎ (has_job js r ≡ true)
    → IsFinal r ⊎ (has_job (jobs_after base j response rest) r ≡ true)
other_delivery base j response js rest r keeps other (inl final) = inl final
other_delivery base j response js rest r keeps other (inr there) =
    elim (keeps (λ x. x.delivery_id == r.delivery_id) there) [
      | inl mine ↦ absurd (
          cc (
            other,
            (eq_iff r.delivery_id j.delivery_id).1
                (sym ((eq_iff j.delivery_id r.delivery_id).0 mine)),
          ))
      | inr still ↦ inr (jobs_after-any base j response _ rest still)
    ]

-- The rows of other deliveries keep their jobs.
Tracked-update :
    (base : ℕ) (j : Job) (response : Response) (now later : ℕ) (js rest : List Job)
    (rows : List DeliveryRow)
    → ((p : Job → Bool) → any p js ≡ true → (p j ≡ true) ⊎ (any p rest ≡ true))
    → All (λ r. IsFinal r ⊎ (has_job js r ≡ true)) rows
    → let jobs' = jobs_after base j response rest in
      All
        (λ r. IsFinal r ⊎ (has_job jobs' r ≡ true))
        (update_rows (is_delivery j.delivery_id) (concluded_row base j response now later) rows)
Tracked-update base j response now later js rest [] keeps h = tt
Tracked-update base j response now later js rest (r ∷ rs) keeps (h, hs) = (
  elim (Bool-cases (is_delivery j.delivery_id r)) [
    | inl same ↦ rw same (
        concluded_row-IsFinal base j response now later r rest
          ((eq_iff r.delivery_id j.delivery_id).0 same))
    | inr other ↦ rw other (other_delivery base j response js rest r keeps other h)
  ],
  Tracked-update base j response now later js rest rs keeps hs,
)

jobs_after-remaining :
    (base : ℕ) (j : Job) (response : Response) (rest : List Job)
    → remaining (jobs_after base j response rest)
      < suc (j.webhook.max_attempts - j.attempt) + remaining rest
unfolding jobs_after remaining schedule_webhook_retry should_retry
jobs_after-remaining base j response rest = ground arith

-- What a turn leaves, if there is a job at its place.
abbrev Arrived : Rail → Option Rail → Type 0
Arrived s none = Unit
Arrived s (some s') = Tracked s' × (remaining s'.jobs < remaining s.jobs)

turn-Arrived : (base : ℕ) (t : Arrival) (s : Rail) → Tracked s → Arrived s (turn base t s)
unfolding turn deliver_webhook
turn-Arrived base t s h = from_job (take_job t.place s.jobs) (take_job-Took t.place s.jobs)
  where
    from_job :
        (o : Option (Job × List Job))
        → Took s.jobs o
        → Arrived s (elim o [
          | none ↦ none
          | some found ↦
              some (
                deliver_webhook base found.0 t.response t.now t.later (record s { jobs = found.1 }))
        ])
    from_job none k = tt
    from_job (some (j, rest)) k = (
      Tracked-update base j t.response t.now t.later s.jobs rest s.deliveries k.1 h,
      omega (arith, k.0, jobs_after-remaining base j t.response rest),
    )

All-IsFinal :
    (jobs : List Job) (rows : List DeliveryRow)
    → jobs ≡ []
    → All (λ r. IsFinal r ⊎ (has_job jobs r ≡ true)) rows
    → All IsFinal rows
All-IsFinal jobs [] e h = tt
All-IsFinal jobs (r ∷ rs) e (inl f, hs) = (f, All-IsFinal jobs rs e hs)
All-IsFinal jobs (r ∷ rs) e (inr j, hs) = absurd (cc (ap (λ js. has_job js r) e, j))

-- What a schedule leaves: fewer turns are left than before, and the deliveries are at their end once
-- no job is left.
abbrev pub Ends : ℕ → Rail → Option Rail → Type 0
Ends n s none = Unit
Ends n s (some s') =
    (n + remaining s'.jobs ≤ remaining s.jobs)
    × Tracked s'
    × (s'.jobs ≡ [] → All IsFinal s'.deliveries)

Ends-later :
    (s s' : Rail) (n : ℕ)
    → remaining s'.jobs < remaining s.jobs
    → (o : Option Rail) → Ends n s' o
    → Ends (suc n) s o
Ends-later s s' n h none k = tt
Ends-later s s' n h (some s'') k = (omega (arith, h, k.0), k.1, k.2)

turns-Ends :
    (base : ℕ) (ts : List Arrival) (s : Rail) → Tracked s → Ends (length ts) s (turns base ts s)
unfolding turns
turns-Ends base [] s h = (omega arith, h, λ e. All-IsFinal s.jobs s.deliveries e h)
turns-Ends base (t ∷ ts) s h =
    from_turn (turns-Ends base ts) (turn base t s) (turn-Arrived base t s h)
  where
    from_turn :
        ((s' : Rail) → Tracked s' → Ends (length ts) s' (turns base ts s'))
        → (o : Option Rail) → Arrived s o
        → Ends (suc (length ts)) s (elim o [ none ↦ none | some s' ↦ turns base ts s' ])
    from_turn rest none k = tt
    from_turn rest (some s') k = Ends-later s s' (length ts) k.1 _ (rest s' k.0)

Tracked-more :
    (j : Job) (js : List Job) (rows : List DeliveryRow)
    → All (λ r. IsFinal r ⊎ (has_job js r ≡ true)) rows
    → All (λ r. IsFinal r ⊎ (has_job (j ∷ js) r ≡ true)) rows
Tracked-more j js [] h = tt
Tracked-more j js (r ∷ rs) (inl f, hs) = (inl f, Tracked-more j js rs hs)
Tracked-more j js (r ∷ rs) (inr there, hs) = (inr (ground arith), Tracked-more j js rs hs)

dispatch_webhooks-Tracked :
    (e : CloudEvent) (ws : List Webhook) (ids : ℕ → String) (now : ℕ) (s : Rail)
    → Tracked s
    → Tracked (dispatch_webhooks e ws ids now s)
unfolding dispatch_webhooks
dispatch_webhooks-Tracked e [] ids now s h = h
dispatch_webhooks-Tracked e (w ∷ ws) ids now s h =
    dispatch_webhooks-Tracked e ws (λ n. ids (suc n)) now _
      (elim (Bool-cases (webhook_matches e w)) [
        | inl matches ↦ rw matches (
          inr (rw ((eq_iff (ids 0) (ids 0)).1 refl) refl),
          Tracked-more (new_job e w (ids 0)) s.jobs s.deliveries h,
        )
        | inr passed ↦ rw passed h
      ])

-- What has happened before: an event was dispatched to webhooks, or a schedule was gone through.
pub data Reached (base : ℕ) : Rail → Type 0 where
  start : Reached base record { deliveries = []; jobs = []; events = [] }
  dispatched :
      {s : Rail} (e : CloudEvent) (ws : List Webhook) (ids : ℕ → String) (now : ℕ)
      → Reached base s
      → Reached base (dispatch_webhooks e (list_webhooks ws) ids now s)
  turned : {s s' : Rail} (t : Arrival) → Reached base s → turn base t s ≡ some s' → Reached base s'

Reached-Tracked : {base : ℕ} {s : Rail} → Reached base s → Tracked s
Reached-Tracked start = tt
Reached-Tracked (dispatched e ws ids now r) =
    dispatch_webhooks-Tracked e (list_webhooks ws) ids now _ (Reached-Tracked r)
Reached-Tracked {base} (turned {s} t r h) = (rw h at (turn-Arrived base t s (Reached-Tracked r))).0

-- From every state that dispatches and answers lead to, in whatever order the answers arrive and
-- whatever they are, only as many further answers are possible as the attempts that the jobs have
-- left. When no job is left, every delivery has succeeded or failed. Before that, every other
-- delivery has a job.
pub turns-Reached :
    (base : ℕ) (s : Rail) (ts : List Arrival)
    → Reached base s
    → Ends (length ts) s (turns base ts s)
turns-Reached base s ts r = turns-Ends base ts s (Reached-Tracked r)
