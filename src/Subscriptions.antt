-- ===== src/Subscriptions.antt =====
-- src/subscriptions/subscriptions.service.ts: `subscribe`, `extend`, `cancel` and `validate`. The
-- plans and the payments are rows that administrators write; `listForUser` only reads.
pub mod Windows
use backendurdubolonest.Base.{
  ℕ, ◌+◌, ◌*◌, max, Bool, ◌&&◌, Option, none, some, Text, ltb, leb, ◌==◌, if◌then◌else◌,
}
use backendurdubolonest.Prisma.{Prisma}
use backendurdubolonest.Http.{
  not_found, p2025, Action, ◌>>=◌, ◌>>◌, pure, gets, or_raise, raise_if, modify, transaction,
}
use backendurdubolonest.Schema.{
  Backend, Subscription, SubscriptionStatus, SubscriptionHistory, SubscriptionPlan, success,
  is_subscription_active,
}
use backendurdubolonest.Audit.{audit_input, write_audit}
use backendurdubolonest.Auth.{Request, AuthenticatedPrincipal, day_ms}
use backendurdubolonest.Users.{live_user, user_not_found}

pub record CreateSubscriptionDto : Type 0 where
  pub user_id : ℕ
  pub plan_id : ℕ
  pub note : Option Text

-- `status: 'ACTIVE', endsAt: { gt: now }`
abbrev pub is_unexpired : ℕ → ℕ → Subscription → Bool
is_unexpired user_id now x =
    x.user_id == user_id && (is_subscription_active x.status && ltb now x.ends_at)

-- `status: 'ACTIVE', startsAt: { lte: now }, endsAt: { gt: now }`
abbrev pub is_running : ℕ → ℕ → Subscription → Bool
is_running user_id now x =
    x.user_id == user_id
    && (is_subscription_active x.status && (leb x.starts_at now && ltb now x.ends_at))

-- Where a new subscription starts.
abbrev pub next_start : ℕ → Option Subscription → ℕ
next_start now none = now
next_start now (some current) = if ltb now current.ends_at then current.ends_at else now

abbrev pub or_note : Option Text → Option Text → Option Text
or_note none old = old
or_note (some new) old = some new

module _ (db : Prisma) where
  abbrev active_plan : ℕ → Backend → Option SubscriptionPlan
  active_plan id s = db.find_first (λ p. p.id == id && p.is_active) s.plans

  unfoldable pub current_subscription : ℕ → ℕ → Backend → Option Subscription
  current_subscription user_id now s =
      db.find_latest (λ x. x.ends_at) (is_unexpired user_id now) s.subscriptions

  unfoldable pub write_history : SubscriptionHistory → Action Backend (Unit {0})
  write_history row =
      modify λ s. record s { subscription_history = db.insert row s.subscription_history }

  unfoldable pub insert_subscription : Subscription → Action Backend (Unit {0})
  insert_subscription row = modify λ s. record s { subscriptions = db.insert row s.subscriptions }

  unfoldable pub update_subscription : ℕ → (Subscription → Subscription) → Action Backend (Unit {0})
  update_subscription id data_row = do
    result ← gets (λ s. db.update_many (λ x. x.id == id) data_row s.subscriptions)
    raise_if (result.1 == 0) p2025
    modify (λ s. record s { subscriptions = result.0 })

  unfoldable pub subscribe :
      CreateSubscriptionDto → ℕ → AuthenticatedPrincipal → Request → Action Backend Subscription
  unfolding current_subscription
  subscribe dto id actor r = do
    plan ← (gets (active_plan dto.plan_id) >>= or_raise (not_found "Active plan not found"))
    user ← (gets (live_user db dto.user_id) >>= or_raise user_not_found)
    current ← gets (current_subscription dto.user_id r.now)
    let row : Subscription = record {
      id = id;
      user_id = dto.user_id;
      plan_id = dto.plan_id;
      status = SubscriptionStatus.active;
      starts_at = next_start r.now current;
      ends_at = next_start r.now current + plan.duration_days * day_ms;
      cancelled_at = none;
      note = dto.note;
    }
    transaction do
      insert_subscription row
      write_history (record {
        subscription_id = id;
        actor_id = actor.id;
        action = "created";
        old_starts_at = none;
        old_ends_at = none;
        new_starts_at = some row.starts_at;
        new_ends_at = some row.ends_at;
        note = dto.note;
      })
    write_audit db (
        audit_input (some actor.id) "subscription.create" "subscription" (some id) success
          r.request_id)
    pure row

  abbrev pub find_subscription : ℕ → Backend → Option Subscription
  find_subscription id s = db.find_first (λ x. x.id == id) s.subscriptions

  -- The end of an extended subscription.
  abbrev pub extended_end : ℕ → ℕ → Subscription → ℕ
  extended_end now days current = max current.ends_at now + days * day_ms

  unfoldable pub extend :
      ℕ → ℕ → Option Text → AuthenticatedPrincipal → Request → Action Backend (Unit {0})
  extend id days note actor r = do
    current ← (gets (find_subscription id) >>= or_raise (not_found "Subscription not found"))
    transaction do
      update_subscription id (λ x. record x {
        ends_at = extended_end r.now days current;
        status = SubscriptionStatus.active;
        cancelled_at = none;
      })
      write_history (record {
        subscription_id = id;
        actor_id = actor.id;
        action = "extended";
        old_starts_at = some current.starts_at;
        old_ends_at = some current.ends_at;
        new_starts_at = some current.starts_at;
        new_ends_at = some (extended_end r.now days current);
        note = note;
      })
    write_audit db (
        audit_input (some actor.id) "subscription.extend" "subscription" (some id) success
          r.request_id)

  unfoldable pub cancel :
      ℕ → Option Text → AuthenticatedPrincipal → Request → Action Backend (Unit {0})
  cancel id note actor r = do
    current ← (gets (find_subscription id) >>= or_raise (not_found "Subscription not found"))
    transaction do
      update_subscription id (λ x. record x {
        status = SubscriptionStatus.cancelled;
        cancelled_at = some r.now;
        note = or_note note current.note;
      })
      write_history (record {
        subscription_id = id;
        actor_id = actor.id;
        action = "cancelled";
        old_starts_at = some current.starts_at;
        old_ends_at = some current.ends_at;
        new_starts_at = some current.starts_at;
        new_ends_at = some current.ends_at;
        note = note;
      })
    write_audit db (
        audit_input (some actor.id) "subscription.cancel" "subscription" (some id) success
          r.request_id)

  -- `validate`: the running subscription that ends last; `active` is whether there is one.
  unfoldable pub validate_subscription : ℕ → ℕ → Backend → Option Subscription
  validate_subscription user_id now s =
      db.find_latest (λ x. x.ends_at) (is_running user_id now) s.subscriptions
