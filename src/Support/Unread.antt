-- ===== src/Support/Unread.antt =====
-- The unread counts of a conversation are the numbers of its messages that are not seen.
use backendurdubolonest.Base.{
  ℕ, ◌≡◌, refl, Bool, true, false, not, ◌&&◌, some, List, [], ◌∷◌, arith, ◌==◌, if◌then◌else◌,
  count, map_where, All,
}
use backendurdubolonest.Prisma.{Prisma}
use backendurdubolonest.Http.{◌>>=◌}
use backendurdubolonest.Http.Keeps.{Keeps}
use backendurdubolonest.Schema.{
  Backend, SupportConversation, SupportMessage, SupportMessageSenderType, SupportMessageStatus,
}
use backendurdubolonest.Auth.{AuthenticatedPrincipal}
use backendurdubolonest.Support.{
  SupportRuntime, CreateSupportMessageDto, is_user_sender, is_admin_sender, update_messages,
  insert_message,
}
use backendurdubolonest.Support.Messages.{
  new_message, with_message, is_unseen_of, create_message_rows, mark_seen_rows, with_seen,
}

-- The counts of one conversation, given the messages.
abbrev pub IsCounted : List SupportMessage → SupportConversation → Type 0
IsCounted ms c =
    (c.admin_unread_count ≡ count (is_unseen_of c.id true) ms)
    × (c.user_unread_count ≡ count (is_unseen_of c.id false) ms)

abbrev pub AreCounted : Backend → Type 0
AreCounted s = All (IsCounted s.support_messages) s.support_conversations

message-IsCounted :
    (id cid aid now : ℕ) (sender : SupportMessageSenderType) (dto : CreateSupportMessageDto)
    (ms : List SupportMessage) (c : SupportConversation)
    → IsCounted ms c
    → IsCounted
        (new_message id cid aid sender dto now ∷ ms)
        (if c.id == cid then with_message id aid sender now c else c)
message-IsCounted id cid aid now SupportMessageSenderType.user dto ms c (a, u) =
    ground (arith, a, u)
message-IsCounted id cid aid now SupportMessageSenderType.admin dto ms c (a, u) =
    ground (arith, a, u)
message-IsCounted id cid aid now SupportMessageSenderType.system dto ms c (a, u) =
    ground (arith, a, u)

pub All-map_where :
    {A : Type 0} (P Q : A → Type 0) (p : A → Bool) (f : A → A) (xs : List A)
    → ((x : A) → P x → Q (if p x then f x else x))
    → All P xs
    → All Q (map_where p f xs)
All-map_where P Q p f [] step h = tt
All-map_where P Q p f (x ∷ xs) step (hx, h) = (step x hx, All-map_where P Q p f xs step h)

abbrev seen_message : ℕ → SupportMessage → SupportMessage
seen_message now m = record m { status = SupportMessageStatus.seen; seen_at = some now }

abbrev marked : ℕ → Bool → ℕ → List SupportMessage → List SupportMessage
marked cid staff now ms = map_where (is_unseen_of cid staff) (seen_message now) ms

marked-same :
    (k cid now : ℕ) (staff : Bool) (ms : List SupportMessage)
    → count (is_unseen_of k staff) (marked cid staff now ms)
      ≡ (if k == cid then 0 else count (is_unseen_of k staff) ms)
marked-same k cid now true [] = ground arith
marked-same k cid now false [] = ground arith
marked-same k cid now true (m ∷ ms) = ground (arith, marked-same k cid now true ms)
marked-same k cid now false (m ∷ ms) = ground (arith, marked-same k cid now false ms)

sender_one : (x : SupportMessageSenderType) → (is_user_sender x && is_admin_sender x) ≡ false
sender_one SupportMessageSenderType.user = refl
sender_one SupportMessageSenderType.admin = refl
sender_one SupportMessageSenderType.system = refl

marked-other :
    (k cid now : ℕ) (staff : Bool) (ms : List SupportMessage)
    → count (is_unseen_of k (not staff)) (marked cid staff now ms)
      ≡ count (is_unseen_of k (not staff)) ms
marked-other k cid now staff [] = refl
marked-other k cid now true (m ∷ ms) =
    ground (arith, sender_one m.sender_type, marked-other k cid now true ms)
marked-other k cid now false (m ∷ ms) =
    ground (arith, sender_one m.sender_type, marked-other k cid now false ms)

seen-IsCounted :
    (cid now : ℕ) (staff : Bool) (ms : List SupportMessage) (c : SupportConversation)
    → IsCounted ms c
    → IsCounted (marked cid staff now ms) (if c.id == cid then with_seen staff now c else c)
seen-IsCounted cid now true ms c (a, u) =
    ground (arith, a, u, marked-same c.id cid now true ms, marked-other c.id cid now true ms)
seen-IsCounted cid now false ms c (a, u) =
    ground (arith, a, u, marked-same c.id cid now false ms, marked-other c.id cid now false ms)

module _ (db : Prisma) (env : SupportRuntime) where
  pub Keeps-create_message_rows :
      (cid : ℕ) (actor : AuthenticatedPrincipal) (sender : SupportMessageSenderType)
      (dto : CreateSupportMessageDto) (id now : ℕ)
      → Keeps AreCounted (create_message_rows db env cid actor sender dto id now)
  unfolding create_message_rows insert_message ◌>>=◌
  Keeps-create_message_rows cid actor sender dto id now = record {
    at = λ s h.
        rw
          (
            db.insert_lem (new_message id cid actor.id sender dto now) s.support_messages,
            db.update_many_lem (λ c. c.id == cid) (with_message id actor.id sender now)
                s.support_conversations,
          )
          (All-map_where _ _ (λ c. c.id == cid) (with_message id actor.id sender now)
            s.support_conversations
            (message-IsCounted id cid actor.id now sender dto s.support_messages) h);
  }

  pub Keeps-mark_seen_rows :
      (cid : ℕ) (staff : Bool) (now : ℕ) → Keeps AreCounted (mark_seen_rows db env cid staff now)
  unfolding mark_seen_rows update_messages ◌>>=◌
  Keeps-mark_seen_rows cid staff now = record {
    at = λ s h.
        rw
          (
            db.update_many_lem (is_unseen_of cid staff) (seen_message now) s.support_messages,
            db.update_many_lem (λ c. c.id == cid) (with_seen staff now) s.support_conversations,
          )
          (All-map_where _ _ (λ c. c.id == cid) (with_seen staff now) s.support_conversations
            (seen-IsCounted cid now staff s.support_messages) h);
  }
