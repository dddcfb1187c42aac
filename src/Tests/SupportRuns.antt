-- ===== src/Tests/SupportRuns.antt =====
-- Runs of the support chat and its gateway, and their theorems at these runs.
use backendurdubolonest.Base.{
  ◌≤◌, ◌≡◌, refl, arith, true, false, ◌||◌, ◌==◌, none, some, [], all, length, codes, trim, take,
  drop, is_some, Among, Option, inl, inr,
}
use backendurdubolonest.Prisma.Tables.{list_client}
use backendurdubolonest.Http.{err, forbidden, ◌>>=◌}
use backendurdubolonest.Audit.{write_audit}
use backendurdubolonest.Schema.{Backend, SupportConversation, SupportConversationStatus}
use backendurdubolonest.Auth.{AuthenticatedPrincipal}
use backendurdubolonest.Auth.Sessions.{validate}
use backendurdubolonest.Uploads.Manifest.{strip_slashes}
use backendurdubolonest.Support.{
  SupportRuntime, public_media_url, is_staff, assert_staff, update_conversation, update_messages,
  insert_message, require_conversation,
}
use backendurdubolonest.Support.Conversations.{
  principal_from_token, FreshConversation, create_conversation, open_conversation,
  ensure_conversation_for_user,
}
use backendurdubolonest.Support.Inbox.{
  SupportConversationQueryDto, list_conversations, stats, update_status,
}
use backendurdubolonest.Support.Messages.{
  MessagePage, is_shown, payload_of_text, create_message_rows, create_message, send_user_message,
  send_admin_message, mark_seen_rows, mark_seen, message_page, list_conversation_messages,
}
use backendurdubolonest.Support.Unread.{AreCounted}
use backendurdubolonest.Support.Steps.{SupportStep, SupportReach, SupportReach-AreCounted}
use backendurdubolonest.Support.Private.{inbox_for_staff, list_conversation_messages-eq-ok}
use backendurdubolonest.Support.Gateway.{
  Gateway, Handshake, Live, online_count, look_up_principal, connection_begins, connection_resumes,
  handle_disconnect,
}
use backendurdubolonest.Support.Gateway.Presence.{IsPresent}
use backendurdubolonest.Support.Gateway.Reach.{GatewayStep, GatewayReach, GatewayReach-IsPresent}
use backendurdubolonest.Tests.Sample.{backend, principal}

opened : Unit {0}
unfolding ◌>>=◌ trim take drop write_audit strip_slashes public_media_url assert_staff
    update_conversation update_messages insert_message require_conversation create_conversation
    open_conversation ensure_conversation_for_user list_conversations stats update_status
    create_message_rows create_message send_user_message send_admin_message mark_seen_rows mark_seen
    list_conversation_messages look_up_principal principal_from_token validate connection_begins
    connection_resumes handle_disconnect
opened = tt

abbrev chat : SupportRuntime
chat = record {
  messages_read = 5;
  r2_public_base_url = codes "https://cdn.example/";
  lower_case = λ t. t;
  contains = λ column text. true;
}

abbrev fresh : FreshConversation
fresh = record { conversation_id = 71; message_id = 72 }

abbrev asked : Backend
asked =
    (send_user_message list_client chat (principal 101 11) (payload_of_text (codes "Hello"))
      (some 9) fresh 73 20 backend).1

abbrev read : Backend
read = (mark_seen list_client chat 71 (principal 101 11) 30 asked).1

SupportReach-AreCounted_example : AreCounted read
SupportReach-AreCounted_example =
    SupportReach-AreCounted list_client chat backend read
      (SupportReach.more
        (SupportReach.more (SupportReach.start backend) (
          SupportStep.send_user_message_step (principal 101 11) (payload_of_text (codes "Hello"))
            (some 9) fresh 73 20 backend refl))
        (SupportStep.mark_seen_step 71 (principal 101 11) 30 asked))
      tt

abbrev whole_inbox : SupportConversationQueryDto
whole_inbox = record { page = 1; limit = 20; search = none; status = none; oldest_first = false }

inbox_for_staff_example :
    (list_conversations list_client chat (principal 101 11) whole_inbox asked
      ≡ (err (forbidden "Support chat inbox is not available"), asked))
    × (stats list_client chat (principal 101 11) asked
        ≡ (err (forbidden "Support chat inbox is not available"), asked))
    × (update_status list_client chat 71 (principal 101 11) SupportConversationStatus.resolved asked
        ≡ (err (forbidden "Support chat inbox is not available"), asked))
    × (send_admin_message list_client chat 71
          (principal 101 11)
          (payload_of_text (codes "Hi"))
          none
          74
          30
          asked
        ≡ (err (forbidden "Support chat inbox is not available"), asked))
inbox_for_staff_example =
    inbox_for_staff list_client chat (principal 101 11) asked whole_inbox 71
      SupportConversationStatus.resolved (payload_of_text (codes "Hi")) none 74 30 refl

abbrev first_page : MessagePage
first_page = message_page list_client chat 71 false (record { page = 1; limit = 40 }) asked

list_conversation_messages-eq-ok_example :
    (asked ≡ asked)
    × ((c : SupportConversation) × Among c asked.support_conversations
        × (c.id ≡ 71)
        × (is_some c.deleted_at ≡ false)
        × ((is_staff chat (principal 101 11) || c.user_id == 101) ≡ true))
    × (all (λ m. is_shown (is_staff chat (principal 101 11)) 71 m.row) first_page.items ≡ true)
    × (length first_page.items ≤ 40)
unfolding opened
list_conversation_messages-eq-ok_example =
    list_conversation_messages-eq-ok list_client chat 71 (principal 101 11)
      (record { page = 1; limit = 40 }) asked asked first_page refl

abbrev quiet : Live
quiet = record {
  backend = backend;
  sockets = [];
  online_users = [];
  rooms = [];
  emitted = [];
  closed = [];
}

abbrev handshake : Handshake
handshake = record { auth_token = some (codes "token"); authorization = none }

-- Two sockets of one user connect, the second one while the first one waits; then the first leaves.
abbrev idle_gateway : Gateway
idle_gateway = record { live = quiet; waiting = [] }

abbrev one_waits : Gateway
one_waits = connection_begins list_client (λ t. some (101, 11)) 81 handshake 20 idle_gateway

abbrev both_wait : Gateway
both_wait = connection_begins list_client (λ t. some (101, 11)) 82 handshake 21 one_waits

abbrev caller : Option AuthenticatedPrincipal
caller = some (principal 101 11)

abbrev one_entered : Gateway
one_entered = connection_resumes chat 81 caller both_wait

abbrev both_entered : Gateway
both_entered = connection_resumes chat 82 caller one_entered

abbrev gone : Gateway
gone = record both_entered { live = (handle_disconnect 81 both_entered.live).1 }

GatewayReach-IsPresent_example : IsPresent gone.live
unfolding opened
GatewayReach-IsPresent_example =
    GatewayReach-IsPresent list_client chat idle_gateway gone
      (GatewayReach.more
        (GatewayReach.more
          (GatewayReach.more
            (GatewayReach.more
              (GatewayReach.more (GatewayReach.start idle_gateway) (
                GatewayStep.connection_begins_step (λ t. some (101, 11)) 81 handshake 20
                  idle_gateway))
              (GatewayStep.connection_begins_step (λ t. some (101, 11)) 82 handshake 21 one_waits))
            (GatewayStep.connection_resumes_step 81 caller both_wait (inr (inl refl)) refl))
          (GatewayStep.connection_resumes_step 82 caller one_entered (inl refl) refl))
        (GatewayStep.disconnect_step 81 both_entered refl))
      (record { distinct = λ id. omega arith; online = λ u. refl })

count_of_run :
    (online_count 101 both_entered.live.online_users ≡ some 2)
    × (online_count 101 gone.live.online_users ≡ some 1)
unfolding opened
count_of_run = (refl, refl)
