-- ===== src/Notifications/Worker/Flight.antt =====
-- What a tick of api/notifications/worker.py leaves in flight.
use server_api.Prelude.{
  ℕ, suc, ◌+◌, ◌≤◌, ◌≡◌, ◌≢◌, ◌⊎◌, inl, inr, refl, sym, ap, ◌∙◌, Bool, true, false, not, some, List,
  [], ◌∷◌, Memᴰ, arith, if◌then◌else◌, mem, update, set_where, All, All-map, All-intro, All-weaken,
  Bool-cases, length, max, select, and_parts,
}
use mathlib.Core.Path.{subst}
use server_api.Notifications.Model.{
  Status, pending, queued, in_flight, Webhook, Delivery, ClaimedDelivery, DispatchResult,
}
use server_api.Notifications.Deliveries.{
  has_id, is_stale, back_to_queue, is_held, stamp, recover_stale_in_flight, release_claims,
  record_attempt, claim_due_deliveries,
}
use server_api.Notifications.Claims.{ids, is_taken, claim-update, length-claim}
use server_api.Notifications.Worker.{
  Env, Worker, lease, verdict, finalize, process, tick_once, outcome_of,
}

-- A row that is in flight is among `held`, or it is one of `old`.
abbrev Held : List ℕ → List Delivery → Delivery → Type 0
Held held old d = d.status ≡ in_flight → (mem d.id held ≡ true) ⊎ Memᴰ d old

-- Statements of the store that do not raise.
pub record StoreWorks (env : Env) : Type 0 where
  pub recovers : env.recover_fails ≡ false
  pub releases : env.release_fails ≡ false
  pub records : (i : ℕ) → env.record_fails i ≡ false

verdict-status :
    (max_attempts r now attempt : ℕ) (outcome : DispatchResult)
    → (verdict max_attempts r now attempt outcome).status ≢ in_flight
unfolding verdict
verdict-status max_attempts r now attempt outcome = ground arith

module _ (old : List Delivery) where
  Held-set :
      (held held' : List ℕ) (b : Bool) (d d' : Delivery)
      → (b ≡ true → d'.status ≢ in_flight)
      → (b ≡ false → d.status ≡ in_flight → mem d.id held ≡ true → mem d.id held' ≡ true)
      → Held held old d
      → Held held' old (if b then d' else d)
  Held-set held held' true d d' no_more keep h = λ e. absurd (no_more refl e)
  Held-set held held' false d d' no_more keep h =
      λ e. elim (h e) [ inl m ↦ inl (keep refl e m) | inr m ↦ inr m ]

  -- A finalized row is in flight no more, and no other row changes.
  Held-finalize :
      (w : Worker) (env : Env) (i : ℕ) (cd : ClaimedDelivery) (rest : List ClaimedDelivery)
      (ds : List Delivery)
      → All (Held (ids (cd ∷ rest)) old) ds
      → All (Held (ids rest) old) (finalize w env i cd ds)
  unfolding finalize record_attempt
  Held-finalize w env i cd rest ds h = All-map (Held (ids rest) old) _ ds (
      All-weaken (Held (ids (cd ∷ rest)) old) _ ds
        (λ d k.
          Held-set (ids (cd ∷ rest)) (ids rest) (has_id cd.id d) d _
            (λ _.
              verdict-status w.max_attempts (env.random i) (env.schedule_now i) cd.attempt
                (outcome_of (env.exchange i cd)))
            (λ other e m. ground arith) k)
        h)

  Held-release :
      (taken : List ℕ) (ds : List Delivery)
      → All (Held taken old) ds
      → All (Held [] old) (release_claims false taken ds).1
  unfolding release_claims
  Held-release [] ds h = h
  Held-release (i ∷ taken) ds h = All-map (Held [] old) _ ds (
      All-weaken (Held (i ∷ taken) old) _ ds
        (λ d k.
          Held-set (i ∷ taken) [] (is_held (i ∷ taken) d) d (record d { status = queued })
            (λ _ e. cc) (λ free e m. ground arith) k)
        h)

  process_settles :
      (w : Worker) (env : Env) (i : ℕ) (claimed : List ClaimedDelivery) (ds : List Delivery)
      → StoreWorks env
      → All (Held (ids claimed) old) ds
      → (n : ℕ) × ((process w env i claimed ds).0 ≡ some n)
        × (i ≤ n)
        × (n ≤ i + length claimed)
        × All (Held [] old) (process w env i claimed ds).1
  unfolding process
  process_settles w env i [] ds s h = (i, refl, omega arith, omega arith, h)
  process_settles w env i (cd ∷ rest) ds s h = elim (Bool-cases (env.shutdown i)) [
    | inl e ↦ (
      i,
      rw e,
      omega arith,
      omega arith,
      rw (e, s.releases) (Held-release (ids (cd ∷ rest)) ds h),
    )
    | inr e ↦
        let (n, done, low, high, settled) =
          process_settles w env (suc i) rest (finalize w env i cd ds) s
            (Held-finalize w env i cd rest ds h) in
        (n, rw (e, s.records i) done, omega arith, omega arith, rw (e, s.records i) settled)
  ]

mem-select :
    (p : Delivery → Bool) {d : Delivery} {ds : List Delivery}
    → Memᴰ d ds
    → p d ≡ true
    → Memᴰ d (select p ds)
mem-select p {d} (Memᴰ.head {x = x} {xs = xs} e) h = rw (subst (λ y. p y ≡ true) e h) (Memᴰ.head e)
mem-select p {d} (Memᴰ.tail {x = x} {xs = xs} m) h = elim (Bool-cases (p x)) [
  | inl e ↦ rw e (Memᴰ.tail (mem-select p m h))
  | inr e ↦ rw e (mem-select p m h)
]

-- The rows that a recovery leaves alone.
abbrev pub untouched : Worker → ℕ → List Delivery → List Delivery
untouched w now = select (λ d. not (is_stale (lease w) now d))

-- What the recovery and the claim do to one row.
Held-claim :
    (stale : Bool) (now : ℕ) (taken : List ℕ) (d : Delivery) (old : List Delivery)
    → (stale ≡ false → Memᴰ d old)
    → Held taken old
        (set_where (is_taken taken) (stamp now) (if stale then back_to_queue now d else d))
Held-claim true now taken d old m = λ e. inl (ground arith)
Held-claim false now taken d old m = pick (Bool-cases (is_taken taken d))
  where
    pick :
        (is_taken taken d ≡ true) ⊎ (is_taken taken d ≡ false)
        → Held taken old (set_where (is_taken taken) (stamp now) d)
    pick (inl e) = λ _. inl (rw e (and_parts _ _ e).0)
    pick (inr e) = λ _. inr (rw e (m refl))

recover-update :
    (older_than now : ℕ) (fails : Bool) (ds : List Delivery)
    → fails ≡ false
    → (recover_stale_in_flight fails older_than now ds).1
      ≡ update (is_stale older_than now) (back_to_queue now) ds
unfolding recover_stale_in_flight
recover-update older_than now fails ds e = rw e

module _ (w : Worker) (env : Env) (now : ℕ) (webhooks : List Webhook) (ds : List Delivery)
    (s : StoreWorks env) where
  abbrev recovered : List Delivery
  recovered = (recover_stale_in_flight env.recover_fails (lease w) now ds).1

  abbrev claim : List ClaimedDelivery × List Delivery
  claim = claim_due_deliveries env.claim_fails now w.batch_size webhooks recovered

  claim-Held : All (Held (ids claim.0) (untouched w now ds)) claim.1
  claim-Held =
      let old = untouched w now ds in
      let taken = ids claim.0 in
      subst (All (Held taken old))
        (sym (
          claim-update env.claim_fails now w.batch_size webhooks recovered
          ∙ ap (update (is_taken taken) (stamp now))
              (recover-update (lease w) now env.recover_fails ds s.recovers)))
        (All-map (Held taken old) (set_where (is_taken taken) (stamp now))
          (update (is_stale (lease w) now) (back_to_queue now) ds)
          (All-map (λ d. Held taken old (set_where (is_taken taken) (stamp now) d))
            (set_where (is_stale (lease w) now) (back_to_queue now)) ds
            (All-intro _ ds (λ d m.
              Held-claim (is_stale (lease w) now d) now taken d old
                (λ e. mem-select (λ x. not (is_stale (lease w) now x)) m (rw e))))))

in_flight-cases : (s : Status) → (s ≢ in_flight) ⊎ (s ≡ in_flight)
in_flight-cases in_flight = inr refl
in_flight-cases pending = inl (λ e. cc)
in_flight-cases _ = inl (λ e. cc)

Held-settled :
    (old : List Delivery) (d : Delivery) → Held [] old d → (d.status ≢ in_flight) ⊎ Memᴰ d old
Held-settled old d h = elim (in_flight-cases d.status) [
  | inl no_more ↦ inl no_more
  | inr e ↦ elim (h e) [ inl m ↦ absurd (cc) | inr m ↦ inr m ]
]

-- If the store raises nothing, a tick finishes, with no more finalized deliveries than the batch
-- allows, and every row of the table after it is out of flight or is a row of the table before it
-- that the tick did not touch, its claim younger than the lease: what the tick claims is finalized
-- or handed back to the queue.
pub tick_once_settles :
    (w : Worker) (env : Env) (now : ℕ) (webhooks : List Webhook) (ds : List Delivery)
    → StoreWorks env
    → (n : ℕ) × ((tick_once w env now webhooks ds).0 ≡ some n)
      × (n ≤ max 1 w.batch_size)
      × All
          (λ d. (d.status ≢ in_flight) ⊎ Memᴰ d (untouched w now ds))
          (tick_once w env now webhooks ds).1
unfolding tick_once
tick_once_settles w env now webhooks ds s =
    let (claimed, taken) = claim w env now webhooks ds s in
    let (n, done, low, high, settled) =
      process_settles (untouched w now ds) w env 0 claimed taken s
        (claim-Held w env now webhooks ds s) in
    (
      n,
      done,
      ground (
        arith,
        length-claim env.claim_fails now w.batch_size webhooks (recovered w env now webhooks ds s),
        high,
      ),
      All-weaken (Held [] (untouched w now ds)) _ _ (Held-settled (untouched w now ds)) settled,
    )
