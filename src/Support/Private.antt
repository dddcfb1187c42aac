-- ===== src/Support/Private.antt =====
-- Who may read the support chat.
use backendurdubolonest.Base.{
  ℕ, zero, suc, ◌+◌, ◌-◌, ◌*◌, ◌≤◌, ◌≡◌, refl, sym, ap, subst, ◌∙◌, Bool, true, false, not, ◌&&◌,
  ◌||◌, Option, none, some, List, [], ◌∷◌, map, arith, ◌==◌, count, all, keep, length, take, drop,
  is_some, Among,
}
use backendurdubolonest.Prisma.{Prisma}
use backendurdubolonest.Http.{
  ok, err, forbidden, not_found, or_raise, Action, ◌>>=◌, ◌>>◌, pure, raise_if,
}
use backendurdubolonest.Http.Inversion.{bind-eq-ok, raise_if-bind-ok, pure-eq-ok, gets-eq-ok}
use backendurdubolonest.Schema.{
  Backend, SupportConversation, SupportConversationStatus, SupportMessage,
}
use backendurdubolonest.Auth.{AuthenticatedPrincipal}
use backendurdubolonest.Support.{
  SupportRuntime, PresentedMessage, CreateSupportMessageDto, SupportMessageQueryDto, is_staff,
  assert_staff, present_message, require_conversation,
}
use backendurdubolonest.Support.Inbox.{
  SupportConversationQueryDto, list_conversations, stats, update_status, page_of,
}
use backendurdubolonest.Support.Messages.{
  MessagePage, is_shown, is_newer, reverse_onto, message_page, list_conversation_messages,
  send_admin_message,
}

-- Whoever is no member of the staff gets the inbox, its numbers, the status of a conversation and
-- the answers of administrators refused as `forbidden`, and nothing is changed, neither a row nor the
-- audit trail.
pub inbox_for_staff :
    (db : Prisma) (env : SupportRuntime) (actor : AuthenticatedPrincipal) (s : Backend)
    (query : SupportConversationQueryDto) (cid : ℕ) (status : SupportConversationStatus)
    (dto : CreateSupportMessageDto) (request_id : Option ℕ) (id now : ℕ)
    → is_staff env actor ≡ false
    → (list_conversations db env actor query s
        ≡ (err (forbidden "Support chat inbox is not available"), s))
      × (stats db env actor s ≡ (err (forbidden "Support chat inbox is not available"), s))
      × (update_status db env cid actor status s
          ≡ (err (forbidden "Support chat inbox is not available"), s))
      × (send_admin_message db env cid actor dto request_id id now s
          ≡ (err (forbidden "Support chat inbox is not available"), s))
unfolding list_conversations stats update_status send_admin_message assert_staff ◌>>=◌
inbox_for_staff db env actor s query cid status dto request_id id now h =
    (rw h refl, rw h refl, rw h refl, rw h refl)

module _ {A : Type 0} where
  keep-none_left : (p : A → Bool) (t : List A) → count (λ a. not (p a)) (keep p t) ≡ 0
  keep-none_left p [] = refl
  keep-none_left p (x ∷ xs) = ground (arith, keep-none_left p xs)

  take-count : (q : A → Bool) (n : ℕ) (t : List A) → count q t ≡ 0 → count q (take n t) ≡ 0
  unfolding take
  take-count q zero t h = refl
  take-count q (suc n) [] h = refl
  take-count q (suc n) (x ∷ xs) h = ground (arith, take-count q n xs)

  drop-count : (q : A → Bool) (n : ℕ) (t : List A) → count q t ≡ 0 → count q (drop n t) ≡ 0
  unfolding drop
  drop-count q zero t h = h
  drop-count q (suc n) [] h = refl
  drop-count q (suc n) (x ∷ xs) h = drop-count q n xs (ground (arith, h))

  reverse_onto-count :
      (q : A → Bool) (done t : List A) → count q (reverse_onto done t) ≡ count q done + count q t
  reverse_onto-count q done [] = omega arith
  reverse_onto-count q done (x ∷ xs) = ground (arith, reverse_onto-count q (x ∷ done) xs)

  take-length : (n : ℕ) (t : List A) → length (take n t) ≤ n
  unfolding take
  take-length zero t = omega arith
  take-length (suc n) [] = omega arith
  take-length (suc n) (x ∷ xs) = omega (arith, take-length n xs)

  reverse_onto-length : (done t : List A) → length (reverse_onto done t) ≡ length done + length t
  reverse_onto-length done [] = omega arith
  reverse_onto-length done (x ∷ xs) = omega (arith, reverse_onto-length (x ∷ done) xs)

module _ {A B : Type 0} where
  map-length : (f : A → B) (t : List A) → length (map f t) ≡ length t
  map-length f [] = refl
  map-length f (x ∷ xs) = ap suc (map-length f xs)

  -- A condition that no row fails is one that no presented row fails.
  map-all :
      (p : A → Bool) (row : B → A) (f : A → B) (t : List A)
      → ((a : A) → row (f a) ≡ a)
      → count (λ a. not (p a)) t ≡ 0
      → all (λ b. p (row b)) (map f t) ≡ true
  map-all p row f [] same h = refl
  map-all p row f (x ∷ xs) same h = ground (arith, ap p (same x), h, map-all p row f xs same)

module _ (db : Prisma) (env : SupportRuntime) where
  message_page-shown :
      (cid : ℕ) (staff : Bool) (query : SupportMessageQueryDto) (s : Backend)
      → (all (λ m. is_shown staff cid m.row) (message_page db env cid staff query s).items ≡ true)
        × (length (message_page db env cid staff query s).items ≤ query.limit)
  message_page-shown cid staff query s =
      let p : SupportMessage → Bool = is_shown staff cid in
      let q : SupportMessage → Bool = λ m. not (p m) in
      let sorted = db.order_by is_newer (db.find_many p s.support_messages) in
      let page = page_of query.page query.limit sorted in
      let none_left : count q sorted ≡ 0 =
        db.order_by_lem is_newer q (db.find_many p s.support_messages)
        ∙ ap (count q) (db.find_many_lem p s.support_messages)
        ∙ keep-none_left p s.support_messages in
      let page_clean : count q page ≡ 0 =
        take-count q query.limit _
          (drop-count q ((query.page - 1) * query.limit) sorted none_left) in
      let short : length page ≤ query.limit = take-length query.limit _ in
      (
        map-all p (λ (m : PresentedMessage). m.row) (λ m. present_message db env m s)
            (reverse_onto [] page) (λ m. refl)
            (omega (arith, reverse_onto-count q [] page, page_clean)),
        omega (
          arith,
          map-length (λ m. present_message db env m s) (reverse_onto [] page),
          reverse_onto-length [] page,
          short,
        ),
      )

  abbrev permitted :
      AuthenticatedPrincipal → SupportConversation → Action Backend SupportConversation
  permitted actor c =
      raise_if (not (is_staff env actor) && not (c.user_id == actor.id))
        (forbidden "Conversation is not available")
      >> pure c

  permitted-eq-ok :
      (actor : AuthenticatedPrincipal) (found : Option SupportConversation) (s t : Backend)
      (c : SupportConversation)
      → (or_raise (not_found "Conversation not found") found >>= permitted actor) s ≡ (ok c, t)
      → (t ≡ s) × (found ≡ some c) × ((is_staff env actor || c.user_id == actor.id) ≡ true)
  unfolding ◌>>=◌
  permitted-eq-ok actor none s t c h = ground arith
  permitted-eq-ok actor (some d) s t c h =
      let (open_to, h1) =
        raise_if-bind-ok (not (is_staff env actor) && not (d.user_id == actor.id)) _ (λ _. pure d) s
          t c h in
      let (same, kept) = pure-eq-ok d c s t h1 in
      (
        sym kept,
        ap some same,
        ground (arith, open_to, ap (λ (x : SupportConversation). x.user_id) same),
      )

  -- The conversation that is found is a stored one, it is the one asked for and not deleted, and it
  -- is the actor's unless the actor is of the staff.
  require_conversation-eq-ok :
      (id : ℕ) (actor : AuthenticatedPrincipal) (s t : Backend) (c : SupportConversation)
      → require_conversation db env id actor s ≡ (ok c, t)
      → (t ≡ s)
        × Among c s.support_conversations
        × (c.id ≡ id)
        × (is_some c.deleted_at ≡ false)
        × ((is_staff env actor || c.user_id == actor.id) ≡ true)
  unfolding require_conversation ◌>>=◌
  require_conversation-eq-ok id actor s t c h =
      let (kept, found, open_to) = permitted-eq-ok actor _ s t c h in
      let (stored, fits) = db.find_first_some _ _ c found in
      (kept, stored, ground (arith, fits), ground (arith, fits), open_to)

-- `listConversationMessages` shows only what its caller may see. If it returns, then the table holds a
-- conversation with the identifier that is asked for, which is not deleted and which is the caller's,
-- unless the caller is of the staff; every message on the page
-- is of this conversation and has not been deleted on the caller's side; the page is no longer than
-- the limit; and nothing is changed.
pub list_conversation_messages-eq-ok :
    (db : Prisma) (env : SupportRuntime) (cid : ℕ) (actor : AuthenticatedPrincipal)
    (query : SupportMessageQueryDto) (s t : Backend) (page : MessagePage)
    → list_conversation_messages db env cid actor query s ≡ (ok page, t)
    → (t ≡ s)
      × ((c : SupportConversation) × Among c s.support_conversations
          × (c.id ≡ cid)
          × (is_some c.deleted_at ≡ false)
          × ((is_staff env actor || c.user_id == actor.id) ≡ true))
      × (all (λ m. is_shown (is_staff env actor) cid m.row) page.items ≡ true)
      × (length page.items ≤ query.limit)
unfolding list_conversation_messages
list_conversation_messages-eq-ok db env cid actor query s t page h =
    let (c, s1, e1, h1) = bind-eq-ok _ _ s t page h in
    let (kept, stored, key, live, open_to) =
      require_conversation-eq-ok db env cid actor s s1 c e1 in
    let (same, still) = gets-eq-ok _ page s1 t h1 in
    let shown = message_page-shown db env c.id (is_staff env actor) query s1 in
    (
      sym still ∙ kept,
      (c, stored, key, live, open_to),
      ap (λ k. all (λ m. is_shown (is_staff env actor) k m.row) page.items) (sym key)
          ∙ ap (λ (p : MessagePage). all (λ m. is_shown (is_staff env actor) c.id m.row) p.items)
              (sym same)
          ∙ shown.0,
      subst (λ (p : MessagePage). length p.items ≤ query.limit) same shown.1,
    )
