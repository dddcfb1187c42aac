-- ===== src/Support/Steps.antt =====
-- Any sequence of requests to the support chat, and the unread counts after it.
use backendurdubolonest.Base.{ℕ, Option, none, some, arith}
use backendurdubolonest.Prisma.{Prisma}
use backendurdubolonest.Http.{◌>>=◌, pure}
use backendurdubolonest.Http.Keeps.{
  Keeps, Leads, Leads-bind, Leads-transaction, Keeps-raise_if, Keeps-bind, Keeps-gets, Keeps-pure,
}
use backendurdubolonest.Schema.{
  Backend, SupportConversation, SupportConversationStatus, SupportMessageSenderType,
}
use backendurdubolonest.Auth.{AuthenticatedPrincipal}
use backendurdubolonest.Support.{
  SupportRuntime, CreateSupportMessageDto, SupportMessageQueryDto, assert_staff,
  require_conversation,
}
use backendurdubolonest.Support.Conversations.{
  FreshConversation, open_conversation, or_open, ensure_conversation_for_user, get_my_conversation,
}
use backendurdubolonest.Support.Inbox.{update_status}
use backendurdubolonest.Support.Messages.{
  create_message, mark_seen, delete_message, send_user_message, send_admin_message,
  list_conversation_messages, list_my_messages,
}
use backendurdubolonest.Support.Unread.{AreCounted}
use backendurdubolonest.Support.Kept.{
  IsFresh, Keeps-update_conversation, Keeps-welcome, create_conversation-Leads, unread_rules,
}

module _ (db : Prisma) where
  open_conversation-Leads :
      (user_id : ℕ) (fresh : FreshConversation) (now : ℕ)
      → Leads
          (λ s. AreCounted s × IsFresh fresh.conversation_id s)
          AreCounted
          (open_conversation db user_id fresh now)
  unfolding open_conversation
  open_conversation-Leads user_id fresh now =
      Leads-bind _ _ _ _ (create_conversation-Leads db fresh.conversation_id user_id now) (λ _.
        Keeps-bind _ _ (Keeps-welcome db _ _ now) (λ _.
          Keeps-bind _ _
            (Keeps-update_conversation db _ _ (λ ms c counted. ground (arith, counted)))
            (λ _. Keeps-pure _)))

  or_open-AreCounted :
      (user_id : ℕ) (fresh : FreshConversation) (now : ℕ) (found : Option SupportConversation)
      (s : Backend)
      → AreCounted s × IsFresh fresh.conversation_id s
      → AreCounted (or_open db user_id fresh now found s).1
  unfolding pure
  or_open-AreCounted user_id fresh now (some c) s h = h.0
  or_open-AreCounted user_id fresh now none s h =
      (Leads-transaction _ _ _ (λ t k. k.0) (open_conversation-Leads user_id fresh now)).at s h

  ensure_conversation_for_user-Leads :
      (user_id : ℕ) (fresh : FreshConversation) (now : ℕ)
      → Leads
          (λ s. AreCounted s × IsFresh fresh.conversation_id s)
          AreCounted
          (ensure_conversation_for_user db user_id fresh now)
  unfolding ensure_conversation_for_user ◌>>=◌
  ensure_conversation_for_user-Leads user_id fresh now = record {
    at = λ s h. or_open-AreCounted user_id fresh now _ s h;
  }

  module _ (env : SupportRuntime) where
    Keeps-create_message :
        (cid : ℕ) (actor : AuthenticatedPrincipal) (sender : SupportMessageSenderType)
        (dto : CreateSupportMessageDto) (id now : ℕ)
        → Keeps AreCounted (create_message db env cid actor sender dto id now)
    unfolding create_message
    Keeps-create_message cid actor sender dto id now = search unread_rules depth 20

    Keeps-require_conversation :
        (id : ℕ) (actor : AuthenticatedPrincipal)
        → Keeps AreCounted (require_conversation db env id actor)
    unfolding require_conversation
    Keeps-require_conversation id actor = search unread_rules depth 20

    send_user_message-Leads :
        (actor : AuthenticatedPrincipal) (dto : CreateSupportMessageDto) (request_id : Option ℕ)
        (fresh : FreshConversation) (id now : ℕ)
        → Leads
            (λ s. AreCounted s × IsFresh fresh.conversation_id s)
            AreCounted
            (send_user_message db env actor dto request_id fresh id now)
    unfolding send_user_message
    send_user_message-Leads actor dto request_id fresh id now =
        Leads-bind _ _ _ _ (ensure_conversation_for_user-Leads actor.id fresh now)
          (λ c. search (unread_rules, Keeps-create_message) depth 20)

    get_my_conversation-Leads :
        (actor : AuthenticatedPrincipal) (fresh : FreshConversation) (now : ℕ)
        → Leads
            (λ s. AreCounted s × IsFresh fresh.conversation_id s)
            AreCounted
            (get_my_conversation db actor fresh now)
    unfolding get_my_conversation
    get_my_conversation-Leads actor fresh now =
        Leads-bind _ _ _ _ (ensure_conversation_for_user-Leads actor.id fresh now)
          (λ c. Keeps-gets _)

    list_my_messages-Leads :
        (actor : AuthenticatedPrincipal) (query : SupportMessageQueryDto)
        (fresh : FreshConversation) (now : ℕ)
        → Leads
            (λ s. AreCounted s × IsFresh fresh.conversation_id s)
            AreCounted
            (list_my_messages db env actor query fresh now)
    unfolding list_my_messages list_conversation_messages
    list_my_messages-Leads actor query fresh now =
        Leads-bind _ _ _ _ (ensure_conversation_for_user-Leads actor.id fresh now)
          (λ c. Keeps-bind _ _ (Keeps-require_conversation c.id actor) (λ d. Keeps-gets _))

    Keeps-send_admin_message :
        (cid : ℕ) (actor : AuthenticatedPrincipal) (dto : CreateSupportMessageDto)
        (request_id : Option ℕ) (id now : ℕ)
        → Keeps AreCounted (send_admin_message db env cid actor dto request_id id now)
    unfolding send_admin_message assert_staff
    Keeps-send_admin_message cid actor dto request_id id now =
        search (unread_rules, Keeps-create_message, Keeps-require_conversation) depth 30

    Keeps-mark_seen :
        (cid : ℕ) (actor : AuthenticatedPrincipal) (now : ℕ)
        → Keeps AreCounted (mark_seen db env cid actor now)
    unfolding mark_seen
    Keeps-mark_seen cid actor now = search (unread_rules, Keeps-require_conversation) depth 20

    Keeps-update_status :
        (cid : ℕ) (actor : AuthenticatedPrincipal) (status : SupportConversationStatus)
        → Keeps AreCounted (update_status db env cid actor status)
    unfolding update_status assert_staff
    Keeps-update_status cid actor status = Keeps-bind _ _ (Keeps-raise_if _ _) (λ _.
        Keeps-bind _ _ (Keeps-require_conversation cid actor) (λ c.
          Keeps-bind _ _
            (Keeps-update_conversation db _ _ (λ ms d counted. ground (arith, counted)))
            (λ _. Keeps-gets _)))

    Keeps-delete_message :
        (id : ℕ) (actor : AuthenticatedPrincipal)
        → Keeps AreCounted (delete_message db env id actor)
    unfolding delete_message
    Keeps-delete_message id actor = search (unread_rules, Keeps-require_conversation) depth 30

-- One request that may write to the support chat, whatever it ends with. The identifier of a new
-- conversation is one that no message refers to.
pub data SupportStep (db : Prisma) (env : SupportRuntime) : Backend → Backend → Type 0 where
  get_my_conversation_step :
      (actor : AuthenticatedPrincipal) (fresh : FreshConversation) (now : ℕ) (s : Backend)
      → IsFresh fresh.conversation_id s
      → SupportStep db env s (get_my_conversation db actor fresh now s).1
  list_my_messages_step :
      (actor : AuthenticatedPrincipal) (query : SupportMessageQueryDto) (fresh : FreshConversation)
      (now : ℕ) (s : Backend)
      → IsFresh fresh.conversation_id s
      → SupportStep db env s (list_my_messages db env actor query fresh now s).1
  send_user_message_step :
      (actor : AuthenticatedPrincipal) (dto : CreateSupportMessageDto) (request_id : Option ℕ)
      (fresh : FreshConversation) (id now : ℕ) (s : Backend)
      → IsFresh fresh.conversation_id s
      → SupportStep db env s (send_user_message db env actor dto request_id fresh id now s).1
  send_admin_message_step :
      (cid : ℕ) (actor : AuthenticatedPrincipal) (dto : CreateSupportMessageDto)
      (request_id : Option ℕ) (id now : ℕ) (s : Backend)
      → SupportStep db env s (send_admin_message db env cid actor dto request_id id now s).1
  mark_seen_step :
      (cid : ℕ) (actor : AuthenticatedPrincipal) (now : ℕ) (s : Backend)
      → SupportStep db env s (mark_seen db env cid actor now s).1
  update_status_step :
      (cid : ℕ) (actor : AuthenticatedPrincipal) (status : SupportConversationStatus) (s : Backend)
      → SupportStep db env s (update_status db env cid actor status s).1
  delete_message_step :
      (id : ℕ) (actor : AuthenticatedPrincipal) (s : Backend)
      → SupportStep db env s (delete_message db env id actor s).1

-- Any sequence of requests.
pub data SupportReach (db : Prisma) (env : SupportRuntime) : Backend → Backend → Type 0 where
  start : (s : Backend) → SupportReach db env s s
  more :
      {s t u : Backend} → SupportReach db env s t → SupportStep db env t u → SupportReach db env s u

module _ (db : Prisma) (env : SupportRuntime) where
  SupportStep-AreCounted : (s t : Backend) → SupportStep db env s t → AreCounted s → AreCounted t
  SupportStep-AreCounted _ _ (SupportStep.get_my_conversation_step actor fresh now s new) h =
      (get_my_conversation-Leads db env actor fresh now).at s (h, new)
  SupportStep-AreCounted _ _ (SupportStep.list_my_messages_step actor query fresh now s new) h =
      (list_my_messages-Leads db env actor query fresh now).at s (h, new)
  SupportStep-AreCounted _ _ (SupportStep.send_user_message_step actor dto r fresh id now s new) h =
      (send_user_message-Leads db env actor dto r fresh id now).at s (h, new)
  SupportStep-AreCounted _ _ (SupportStep.send_admin_message_step cid actor dto r id now s) h =
      (Keeps-send_admin_message db env cid actor dto r id now).at s h
  SupportStep-AreCounted _ _ (SupportStep.mark_seen_step cid actor now s) h =
      (Keeps-mark_seen db env cid actor now).at s h
  SupportStep-AreCounted _ _ (SupportStep.update_status_step cid actor status s) h =
      (Keeps-update_status db env cid actor status).at s h
  SupportStep-AreCounted _ _ (SupportStep.delete_message_step id actor s) h =
      (Keeps-delete_message db env id actor).at s h

-- Whatever sequence of requests to the support chat is served, one after the other, and whatever
-- each of them ends with: if the two unread counts of every conversation are right before, they
-- are right after it. The count of the administrators is the number of messages of the
-- conversation that its user has sent and that are not seen, and the count of the user is that of
-- the messages of administrators. The identifier that a new conversation takes is one that no
-- message refers to.
pub SupportReach-AreCounted :
    (db : Prisma) (env : SupportRuntime) (s t : Backend)
    → SupportReach db env s t
    → AreCounted s
    → AreCounted t
SupportReach-AreCounted db env _ _ (SupportReach.start s) h = h
SupportReach-AreCounted db env s u (SupportReach.more {t = t} reach step) h =
    SupportStep-AreCounted db env t u step (SupportReach-AreCounted db env s t reach h)
