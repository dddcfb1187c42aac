-- ===== src/Subscriptions/Windows.antt =====
-- The windows of time for which a user has a subscription.
use backendurdubolonest.Base.{
  ℕ, ◌≤◌, ◌<◌, ◌≡◌, ◌≢◌, ◌∙◌, ◌⊎◌, refl, sym, ap, subst, Bool, true, false, not, ◌&&◌, Option, none,
  some, Text, List, [], ◌∷◌, inl, inr, arith, ltb, ◌==◌, is_some, any, map_where, Among,
  Option-cases,
}
use backendurdubolonest.Prisma.{Prisma}
use backendurdubolonest.Prisma.Rows.{any-of-Among, Among-map_where}
use backendurdubolonest.Http.{ok, ◌>>=◌}
use backendurdubolonest.Schema.{Backend, Subscription, SubscriptionStatus, is_subscription_active}
use backendurdubolonest.Audit.{write_audit}
use backendurdubolonest.Auth.{Request, AuthenticatedPrincipal}
use backendurdubolonest.Subscriptions.{
  CreateSubscriptionDto, is_unexpired, is_running, next_start, current_subscription, write_history,
  insert_subscription, update_subscription, subscribe, cancel, find_subscription, or_note,
  validate_subscription,
}

-- Two active subscriptions of one user whose windows have a moment in common.
abbrev pub overlap : Subscription → Subscription → Bool
overlap a b =
    a.user_id == b.user_id
    && (is_subscription_active a.status
        && (is_subscription_active b.status
            && (ltb a.starts_at b.ends_at && ltb b.starts_at a.ends_at)))

-- No two of the subscriptions overlap.
abbrev pub are_apart : List Subscription → Bool
are_apart [] = true
are_apart (x ∷ xs) = not (any (overlap x) xs) && are_apart xs

abbrev cancelled : Request → Option Text → Subscription → Subscription → Subscription
cancelled r remark current x = record x {
  status = SubscriptionStatus.cancelled;
  cancelled_at = some r.now;
  note = or_note remark current.note;
}

module _ (db : Prisma) where
  -- What is active for the user ends before the next subscription starts.
  next_start_last :
      (user_id now : ℕ) (s : Backend) (x : Subscription)
      → Among x s.subscriptions
      → x.user_id ≡ user_id
      → is_subscription_active x.status ≡ true
      → x.ends_at ≤ next_start now (current_subscription db user_id now s)
  unfolding current_subscription
  next_start_last user_id now s x there mine active =
      elim (Option-cases
        (db.find_latest (λ y. y.ends_at) (is_unexpired user_id now) s.subscriptions)) [
          | inl e ↦ ground (
            arith,
            db.find_latest_none (λ y. y.ends_at) (is_unexpired user_id now) s.subscriptions e,
            any-of-Among (is_unexpired user_id now) x s.subscriptions there,
          )
          | inr (y, e) ↦
              let (_, fits, last) =
                db.find_latest_some (λ z. z.ends_at) (is_unexpired user_id now) s.subscriptions y x
                  e in
              ground (arith, last there)
        ]

  subscribe-eq-ok :
      (dto : CreateSubscriptionDto) (id : ℕ) (actor : AuthenticatedPrincipal) (r : Request)
      (s t : Backend) (new : Subscription)
      → subscribe db dto id actor r s ≡ (ok new, t)
      → (t.subscriptions ≡ new ∷ s.subscriptions)
        × (new.starts_at ≡ next_start r.now (current_subscription db dto.user_id r.now s))
        × (new.user_id ≡ dto.user_id)
        × (new.starts_at ≤ new.ends_at)
        × (new.status ≡ SubscriptionStatus.active)
  unfolding subscribe current_subscription insert_subscription write_history write_audit ◌>>=◌
  subscribe-eq-ok dto id actor r s t new h = grind (arith, db.insert_lem)

  -- A next subscription starts at once, or when one that the user has is over.
  next_start_cases :
      (user_id now : ℕ) (s : Backend)
      → (next_start now (current_subscription db user_id now s) ≡ now)
        ⊎ ((x : Subscription) × Among x s.subscriptions
            × (x.user_id ≡ user_id)
            × (is_subscription_active x.status ≡ true)
            × (next_start now (current_subscription db user_id now s) ≡ x.ends_at))
  unfolding current_subscription
  next_start_cases user_id now s =
      elim (Option-cases
        (db.find_latest (λ y. y.ends_at) (is_unexpired user_id now) s.subscriptions)) [
          | inl e ↦ inl (rw e refl)
          | inr (y, e) ↦
              let (there, fits, _) =
                db.find_latest_some (λ z. z.ends_at) (is_unexpired user_id now) s.subscriptions y y
                  e in
              inr (y, there, ground (arith, fits), ground (arith, fits), ground (arith, e, fits))
        ]

  none_overlaps :
      (user_id start : ℕ) (new : Subscription) (rows : List Subscription)
      → new.user_id ≡ user_id
      → start ≡ new.starts_at
      → ((x : Subscription)
          → Among x rows
          → x.user_id ≡ user_id
          → is_subscription_active x.status ≡ true
          → x.ends_at ≤ start)
      → any (overlap new) rows ≡ false
  none_overlaps user_id start new [] mine starts last = refl
  none_overlaps user_id start new (x ∷ xs) mine starts last = ground (
    arith,
    last x (inl refl),
    none_overlaps user_id start new xs mine starts (λ y m. last y (inr m)),
  )

  -- Selling a subscription keeps the active subscriptions of each user apart. The new one
  -- starts at the sale, or exactly when an active subscription that the user has ends; and
  -- every active subscription that the user has ends no later than the new one starts.
  pub subscribe-are_apart :
      (dto : CreateSubscriptionDto) (id : ℕ) (actor : AuthenticatedPrincipal) (r : Request)
      (s t : Backend) (new : Subscription)
      → are_apart s.subscriptions ≡ true
      → subscribe db dto id actor r s ≡ (ok new, t)
      → (are_apart t.subscriptions ≡ true)
        × ((new.starts_at ≡ r.now)
            ⊎ ((x : Subscription) × Among x s.subscriptions
                × (x.user_id ≡ dto.user_id)
                × (is_subscription_active x.status ≡ true)
                × (new.starts_at ≡ x.ends_at)))
        × ((x : Subscription)
            → Among x s.subscriptions
            → x.user_id ≡ dto.user_id
            → is_subscription_active x.status ≡ true
            → x.ends_at ≤ new.starts_at)
  subscribe-are_apart dto id actor r s t new apart h =
      let (grown, starts, mine, _, _) = subscribe-eq-ok dto id actor r s t new h in
      let last : (x : Subscription)
          → Among x s.subscriptions
          → x.user_id ≡ dto.user_id
          → is_subscription_active x.status ≡ true
          → x.ends_at ≤ new.starts_at =
        λ x m own active.
          omega (arith, starts, next_start_last dto.user_id r.now s x m own active) in
      let apart_after : are_apart t.subscriptions ≡ true = ground (
        arith,
        grown,
        none_overlaps dto.user_id new.starts_at new s.subscriptions mine refl last,
      ) in
      (
        apart_after,
        elim (next_start_cases dto.user_id r.now s) [
          | inl e ↦ inl (starts ∙ e)
          | inr (x, there, own, active, e) ↦ inr (x, there, own, active, starts ∙ e)
        ],
        last,
      )

  -- A running subscription is found.
  validate_subscription_running :
      (user_id now : ℕ) (s : Backend) (x : Subscription)
      → Among x s.subscriptions
      → is_running user_id now x ≡ true
      → is_some (validate_subscription db user_id now s) ≡ true
  unfolding validate_subscription
  validate_subscription_running user_id now s x there runs =
      elim (Option-cases
        (db.find_latest (λ y. y.ends_at) (is_running user_id now) s.subscriptions)) [
          | inl e ↦ ground (
            arith,
            db.find_latest_none (λ y. y.ends_at) (is_running user_id now) s.subscriptions e,
            any-of-Among (is_running user_id now) x s.subscriptions there runs,
          )
          | inr (y, e) ↦ ground arith
        ]

  next_start_later : (now : ℕ) (current : Option Subscription) → now ≤ next_start now current
  next_start_later now none = ground arith
  next_start_later now (some x) = ground arith

  -- A subscription that is sold counts from its start, which is not before the sale, until its
  -- end.
  pub subscribe-validate_subscription :
      (dto : CreateSubscriptionDto) (id now : ℕ) (actor : AuthenticatedPrincipal) (r : Request)
      (s t : Backend) (new : Subscription)
      → subscribe db dto id actor r s ≡ (ok new, t)
      → new.starts_at ≤ now
      → now < new.ends_at
      → (r.now ≤ new.starts_at) × (is_some (validate_subscription db dto.user_id now t) ≡ true)
  subscribe-validate_subscription dto id now actor r s t new h from until =
      let (grown, starts, mine, _, active) = subscribe-eq-ok dto id actor r s t new h in
      (
        ground
            (arith, starts, next_start_later r.now (current_subscription db dto.user_id r.now s)),
        validate_subscription_running dto.user_id now t new
            (subst (Among new) (sym grown) (inl refl)) (ground arith),
      )

  cancel-eq-ok :
      (id : ℕ) (remark : Option Text) (actor : AuthenticatedPrincipal) (r : Request) (s t : Backend)
      → cancel db id remark actor r s ≡ (ok tt, t)
      → (current : Subscription) × (t.subscriptions
          ≡ map_where (λ x. x.id == id) (cancelled r remark current) s.subscriptions)
  unfolding cancel update_subscription write_history write_audit ◌>>=◌
  cancel-eq-ok id remark actor r s t h = elim (Option-cases (find_subscription db id s)) [
    | inl e ↦ ground arith
    | inr (current, e) ↦ (current, grind (arith, db.update_many_lem))
  ]

  -- In the state that `cancel` leaves, the subscription is not the one that `validate` finds, for
  -- any user and at any time.
  pub cancel-validate_subscription :
      (id user_id now : ℕ) (remark : Option Text) (actor : AuthenticatedPrincipal) (r : Request)
      (s t : Backend) (x : Subscription)
      → cancel db id remark actor r s ≡ (ok tt, t)
      → validate_subscription db user_id now t ≡ some x
      → x.id ≢ id
  unfolding validate_subscription
  cancel-validate_subscription id user_id now remark actor r s t x h found same =
      let (current, rows) = cancel-eq-ok id remark actor r s t h in
      let (there, runs, _) =
        db.find_latest_some (λ y. y.ends_at) (is_running user_id now) t.subscriptions x x found in
      let (y, _, e) =
        Among-map_where (λ z. z.id == id) (cancelled r remark current) s.subscriptions x
          (subst (Among x) rows there) in
      ground (arith, ap (λ z. z.id) e, ap (λ z. z.status) e)
