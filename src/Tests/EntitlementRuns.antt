-- ===== src/Tests/EntitlementRuns.antt =====
-- Runs of the subscription and access services, and their theorems at these runs.
use backendurdubolonest.Base.{
  ℕ, ◌≡◌, ◌≢◌, ◌≤◌, ◌⊎◌, Among, refl, true, false, not, ◌&&◌, none, some, inl, arith, any, is_some,
  ◌==◌,
}
use backendurdubolonest.Prisma.Tables.{list_client}
use backendurdubolonest.Http.{◌>>=◌}
use backendurdubolonest.Audit.{write_audit}
use backendurdubolonest.Schema.{Backend, Subscription, is_subscription_active}
use backendurdubolonest.Subscriptions.{
  CreateSubscriptionDto, current_subscription, write_history, insert_subscription,
  update_subscription, subscribe, cancel, validate_subscription,
}
use backendurdubolonest.Subscriptions.Windows.{
  are_apart, subscribe-are_apart, subscribe-validate_subscription, cancel-validate_subscription,
}
use backendurdubolonest.Access.{
  GrantDto, assert_window, ensure_user, ensure_group, remove_member, has_member,
}
use backendurdubolonest.Access.Grants.{
  ensure_target, insert_grant, create_grant, revoke_grant_row, revoke_grant, validate_access,
  new_grant,
}
use backendurdubolonest.Access.Grants.Effect.{
  lets, validate_access-lets, revoke_grant-validate_access, remove_member-has_member,
  create_grant-validate_access,
}
use backendurdubolonest.Tests.Sample.{request, principal}
use backendurdubolonest.Tests.Library.{library, subscription}

opened : Unit {0}
unfolding ◌>>=◌ write_audit current_subscription write_history insert_subscription
    update_subscription subscribe cancel validate_subscription assert_window ensure_user
    ensure_group ensure_target insert_grant create_grant revoke_grant_row revoke_grant
    validate_access remove_member
opened = tt

abbrev offer : CreateSubscriptionDto
offer = record { user_id = 101; plan_id = 81; note = none }

abbrev sold : Backend
sold = (subscribe list_client offer 83 (principal 102 12) (request 20) library).1

subscribe-are_apart_example :
    (are_apart sold.subscriptions ≡ true)
    × ((◌≡◌ {A = ℕ} 1_000 20)
        ⊎ ((x : Subscription) × Among x library.subscriptions
            × (x.user_id ≡ 101)
            × (is_subscription_active x.status ≡ true)
            × (1_000 ≡ x.ends_at)))
    × ((x : Subscription)
        → Among x library.subscriptions
        → x.user_id ≡ 101
        → is_subscription_active x.status ≡ true
        → x.ends_at ≤ 1_000)
unfolding opened
subscribe-are_apart_example =
    subscribe-are_apart list_client offer 83 (principal 102 12) (request 20) library sold
      (subscription 83 1_000 2_592_001_000) refl refl

subscribe-validate_subscription_example :
    (20 ≤ 1_000) × (is_some (validate_subscription list_client 101 5_000 sold) ≡ true)
unfolding opened
subscribe-validate_subscription_example =
    subscribe-validate_subscription list_client offer 83 5_000 (principal 102 12) (request 20)
      library sold (subscription 83 1_000 2_592_001_000) refl (omega arith) (omega arith)

-- The first subscription is cancelled after the second one is sold.
abbrev ended : Backend
ended = (cancel list_client 82 none (principal 102 12) (request 30) sold).1

cancel-validate_subscription_example : (subscription 83 1_000 2_592_001_000).id ≢ 82
unfolding opened
cancel-validate_subscription_example =
    cancel-validate_subscription list_client 82 101 5_000 none (principal 102 12) (request 30) sold
      ended (subscription 83 1_000 2_592_001_000) refl refl

validate_access-lets_example :
    (validate_access list_client 51 102 20 library).allowed
    ≡ any (lets 51 102 20 library) library.episode_grants
validate_access-lets_example = validate_access-lets list_client 51 102 20 library

abbrev withdrawn : Backend
withdrawn = (revoke_grant list_client 93 (principal 101 11) (request 25) library).1

revoke_grant-validate_access_example :
    (validate_access list_client 51 102 30 withdrawn).allowed
    ≡ any (λ g. not (g.id == 93) && lets 51 102 30 library g) library.episode_grants
unfolding opened
revoke_grant-validate_access_example =
    revoke_grant-validate_access list_client 93 51 102 30 (principal 101 11) (request 25) library
      withdrawn refl

abbrev departed : Backend
departed = (remove_member list_client 91 102 (principal 101 11) (request 25) library).1

remove_member-has_member_example : has_member 102 30 departed (some 91) ≡ false
unfolding opened
remove_member-has_member_example =
    remove_member-has_member list_client 91 102 30 (principal 101 11) (request 25) library departed
      refl

abbrev wanted : GrantDto
wanted = record {
  user_id = some 102;
  group_id = none;
  starts_at = some 40;
  ends_at = some 900;
  remark = none;
}

abbrev granted : Backend
granted = (create_grant list_client wanted 51 94 (principal 101 11) (request 35) library).1

create_grant-validate_access_example :
    (validate_access list_client 51 102 600 granted).allowed ≡ true
unfolding opened
create_grant-validate_access_example =
    create_grant-validate_access list_client wanted 51 94 102 600 (principal 101 11) (request 35)
      library granted (new_grant wanted (40, 900) 94 51) refl (inl refl) (omega arith) (omega arith)
