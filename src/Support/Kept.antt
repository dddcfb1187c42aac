-- ===== src/Support/Kept.antt =====
-- The writes that the support chat is made of keep the unread counts.
use backendurdubolonest.Base.{
  ℕ, ◌≡◌, refl, sym, ◌∙◌, Bool, true, false, Option, none, some, List, [], ◌∷◌, arith, ◌==◌,
  if◌then◌else◌, count, map_where, All, any, Bool-cases, inl, inr, String,
}
use backendurdubolonest.Prisma.{Prisma}
use backendurdubolonest.Http.{◌>>=◌, modify}
use backendurdubolonest.Http.Keeps.{
  Keeps, Leads, Leads-bind, Keeps-bind, Keeps-gets, Keeps-pure, Keeps-transaction, keeps_rules,
}
use backendurdubolonest.Schema.{Backend, SupportConversation, SupportMessage, AuditEvent}
use backendurdubolonest.Audit.{write_audit}
use backendurdubolonest.Auth.{AuthenticatedPrincipal}
use backendurdubolonest.Support.{update_conversation, update_messages, insert_message}
use backendurdubolonest.Support.Conversations.{
  conversation_clash, new_conversation, welcome, create_conversation,
}
use backendurdubolonest.Support.Messages.{is_unseen_of, hidden, audited}
use backendurdubolonest.Support.Unread.{
  IsCounted, AreCounted, All-map_where, Keeps-create_message_rows, Keeps-mark_seen_rows,
}

-- No message refers to the conversation yet: what `uuid()` generates is new.
abbrev pub IsFresh : ℕ → Backend → Type 0
IsFresh id s = any (λ m. m.conversation_id == id) s.support_messages ≡ false

fresh-unseen :
    (id : ℕ) (by_user : Bool) (ms : List SupportMessage)
    → any (λ m. m.conversation_id == id) ms ≡ false
    → 0 ≡ count (is_unseen_of id by_user) ms
fresh-unseen id by_user [] h = refl
fresh-unseen id by_user (m ∷ ms) h = ground (arith, fresh-unseen id by_user ms)

All-imp :
    {A : Type 0} (P Q : A → Type 0) (xs : List A) → ((x : A) → P x → Q x) → All P xs → All Q xs
All-imp P Q [] step h = tt
All-imp P Q (x ∷ xs) step (hx, h) = (step x hx, All-imp P Q xs step h)

hidden-unseen :
    (k id : ℕ) (staff by_user : Bool) (ms : List SupportMessage)
    → count (is_unseen_of k by_user) (map_where (λ x. x.id == id) (hidden staff) ms)
      ≡ count (is_unseen_of k by_user) ms
hidden-unseen k id staff by_user [] = refl
hidden-unseen k id true by_user (m ∷ ms) = ground (arith, hidden-unseen k id true by_user ms)
hidden-unseen k id false by_user (m ∷ ms) = ground (arith, hidden-unseen k id false by_user ms)

module _ (db : Prisma) where
  -- A change that leaves the key and the counts of a conversation alone.
  pub Keeps-update_conversation :
      (id : ℕ) (f : SupportConversation → SupportConversation)
      → ((ms : List SupportMessage) (c : SupportConversation)
          → IsCounted ms c
          → IsCounted ms (if c.id == id then f c else c))
      → Keeps AreCounted (update_conversation db id f)
  unfolding update_conversation ◌>>=◌
  Keeps-update_conversation id f step = record {
    at = λ s h.
        rw (db.update_many_lem (λ c. c.id == id) f s.support_conversations) (
          All-map_where _ _ (λ c. c.id == id) f s.support_conversations (step s.support_messages)
            h);
  }

  pub Keeps-hide :
      (id : ℕ) (staff : Bool)
      → Keeps AreCounted (update_messages db (λ x. x.id == id) (hidden staff))
  unfolding update_messages ◌>>=◌
  Keeps-hide id staff = record {
    at = λ s h. rw (db.update_many_lem (λ x. x.id == id) (hidden staff) s.support_messages) (
        All-imp _ _ s.support_conversations
          (λ c (a, u). (
            a ∙ sym (hidden-unseen c.id id staff true s.support_messages),
            u ∙ sym (hidden-unseen c.id id staff false s.support_messages),
          ))
          h);
  }

  pub Keeps-welcome : (id cid now : ℕ) → Keeps AreCounted (insert_message db (welcome id cid now))
  unfolding insert_message modify
  Keeps-welcome id cid now = record {
    at = λ s h. rw (db.insert_lem (welcome id cid now) s.support_messages) (
        All-imp _ _ s.support_conversations (λ c (a, u). (ground (arith, a), ground (arith, u))) h);
  }

  pub Keeps-write_audit : (input : AuditEvent) → Keeps AreCounted (write_audit db input)
  unfolding write_audit
  Keeps-write_audit input = record { at = λ s h. h }

  pub Keeps-audited :
      (actor : AuthenticatedPrincipal) (action : String) (id : ℕ) (r : Option ℕ)
      → Keeps AreCounted (audited db actor action id r)
  Keeps-audited actor action id none = Keeps-pure tt
  Keeps-audited actor action id (some r) = Keeps-write_audit _

  pub create_conversation-Leads :
      (id user_id now : ℕ)
      → Leads
          (λ s. AreCounted s × IsFresh id s)
          AreCounted
          (create_conversation db (new_conversation id user_id now))
  unfolding create_conversation ◌>>=◌
  create_conversation-Leads id user_id now = record {
    at = λ s (h, fresh).
        elim (Bool-cases
          (any (conversation_clash (new_conversation id user_id now)) s.support_conversations)) [
            | inl clash ↦
                rw
                  (
                    db.create_lem conversation_clash (new_conversation id user_id now)
                        s.support_conversations,
                    clash,
                  )
                  h
            | inr free ↦
                rw
                  (
                    db.create_lem conversation_clash (new_conversation id user_id now)
                        s.support_conversations,
                    free,
                  )
                  (
                    (
                      fresh-unseen id true s.support_messages fresh,
                      fresh-unseen id false s.support_messages fresh,
                    ),
                    h,
                  )
          ];
  }

pub ruleset unread_rules = (
  keeps_rules, Keeps-update_conversation, Keeps-hide, Keeps-welcome, Keeps-write_audit,
  Keeps-audited, Keeps-create_message_rows, Keeps-mark_seen_rows,
)
