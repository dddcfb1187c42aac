-- ===== src/Support/Inbox.antt =====
-- The inbox of src/support-chat/support-chat.service.ts: its pages, its numbers, and the status of a
-- conversation.
use backendurdubolonest.Base.{
  ℕ, ◌+◌, ◌-◌, ◌*◌, Bool, true, false, ◌&&◌, ◌||◌, Option, none, some, List, map, Text, trim, take,
  drop, ◌/◌, ltb, leb, ◌==◌, if◌then◌else◌, is_some, is_none,
}
use backendurdubolonest.Prisma.{Prisma}
use backendurdubolonest.Http.{Action, ◌>>=◌, ◌>>◌, gets}
use backendurdubolonest.Schema.{Backend, User, SupportConversation, SupportConversationStatus}
use backendurdubolonest.Auth.{AuthenticatedPrincipal}
use backendurdubolonest.Support.{
  SupportRuntime, PresentedConversation, assert_staff, present_conversation, update_conversation,
  require_conversation, non_empty,
}

abbrev pub is_waiting : SupportConversationStatus → Bool
is_waiting SupportConversationStatus.waiting = true
is_waiting _ = false

abbrev pub is_resolved : SupportConversationStatus → Bool
is_resolved SupportConversationStatus.resolved = true
is_resolved _ = false

abbrev pub is_blocked : SupportConversationStatus → Bool
is_blocked SupportConversationStatus.blocked = true
is_blocked _ = false

abbrev pub is_open : SupportConversationStatus → Bool
is_open SupportConversationStatus.open_state = true
is_open _ = false

-- The filter of the inbox: a status, or the conversations with something unread.
pub data StatusFilter : Type 0 where
  in_open in_waiting in_resolved in_blocked in_unread : StatusFilter

pub record SupportConversationQueryDto : Type 0 where
  pub page : ℕ
  pub limit : ℕ
  pub search : Option Text
  pub status : Option StatusFilter
  pub oldest_first : Bool

pub record ConversationPage : Type 0 where
  pub items : List PresentedConversation
  pub total : ℕ
  pub total_pages : ℕ

pub record InboxStats : Type 0 where
  pub total : ℕ
  pub unread : ℕ
  pub waiting : ℕ
  pub resolved : ℕ
  pub blocked : ℕ

-- `Math.ceil(total / limit)`, for a limit that is not zero.
abbrev pub pages : ℕ → ℕ → ℕ
pages total limit = (total + (limit - 1)) / limit

-- `skip: (page - 1) * limit, take: limit`
abbrev pub page_of {ℓ} : {A : Type ℓ} → ℕ → ℕ → List A → List A
page_of page limit rows = take limit (drop ((page - 1) * limit) rows)

abbrev has_status : Option StatusFilter → SupportConversation → Bool
has_status none c = true
has_status (some StatusFilter.in_unread) c = ltb 0 c.admin_unread_count
has_status (some StatusFilter.in_open) c = is_open c.status
has_status (some StatusFilter.in_waiting) c = is_waiting c.status
has_status (some StatusFilter.in_resolved) c = is_resolved c.status
has_status (some StatusFilter.in_blocked) c = is_blocked c.status

-- Dates in descending order, in which PostgreSQL puts a missing one first.
abbrev is_later : Option ℕ → Option ℕ → Bool
is_later none b = true
is_later (some a) none = false
is_later (some a) (some b) = leb b a

abbrev before_in : Bool → SupportConversation → SupportConversation → Bool
before_in oldest_first a b =
    if oldest_first
    then is_later b.last_message_at a.last_message_at
    else is_later a.last_message_at b.last_message_at

module _ (db : Prisma) (env : SupportRuntime) where
  abbrev mentions : Text → User → Bool
  mentions text u =
      env.contains u.username (trim text) || env.contains u.email (env.lower_case (trim text))

  abbrev fits_search : Option Text → Backend → SupportConversation → Bool
  fits_search none s c = true
  fits_search (some text) s c =
      is_some (db.find_first (λ u. u.id == c.user_id && mentions text u) s.users)

  abbrev pub is_listed : SupportConversationQueryDto → Backend → SupportConversation → Bool
  is_listed query s c =
      is_none c.deleted_at
      && (has_status query.status c && fits_search (non_empty query.search) s c)

  abbrev pub conversation_page : SupportConversationQueryDto → Backend → ConversationPage
  conversation_page query s = record {
    items =
        map (λ c. present_conversation db c s)
          (page_of query.page query.limit (
            db.order_by (before_in query.oldest_first)
              (db.find_many (is_listed query s) s.support_conversations)));
    total = db.count_rows (is_listed query s) s.support_conversations;
    total_pages = pages (db.count_rows (is_listed query s) s.support_conversations) query.limit;
  }

  unfoldable pub list_conversations :
      AuthenticatedPrincipal → SupportConversationQueryDto → Action Backend ConversationPage
  unfolding assert_staff
  list_conversations actor query = do assert_staff env actor; gets (conversation_page query)

  abbrev pub count_live : (SupportConversation → Bool) → Backend → ℕ
  count_live test s = db.count_rows (λ c. is_none c.deleted_at && test c) s.support_conversations

  unfoldable pub stats : AuthenticatedPrincipal → Action Backend InboxStats
  unfolding assert_staff
  stats actor = do
    assert_staff env actor
    gets λ s. record {
      total = count_live (λ c. true) s;
      unread = count_live (λ c. ltb 0 c.admin_unread_count) s;
      waiting = count_live (λ c. is_waiting c.status) s;
      resolved = count_live (λ c. is_resolved c.status) s;
      blocked = count_live (λ c. is_blocked c.status) s;
    }

  unfoldable pub update_status :
      ℕ → AuthenticatedPrincipal → SupportConversationStatus → Action Backend PresentedConversation
  unfolding assert_staff require_conversation update_conversation
  update_status id actor status = do
    assert_staff env actor
    c ← require_conversation db env id actor
    update_conversation db c.id
        (λ d. record d { status = status; assigned_admin_id = some actor.id })
    gets (present_conversation db (record c { status = status; assigned_admin_id = some actor.id }))
