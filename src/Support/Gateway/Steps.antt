-- ===== src/Support/Gateway/Steps.antt =====
-- Every handler of the gateway of the support chat keeps its counts of sockets.
use backendurdubolonest.Base.{
  ℕ, ◌+◌, ◌-◌, ◌≤◌, ◌≡◌, refl, sym, ap, subst, ◌∙◌, Bool, true, false, not, Option, none, some,
  List, [], ◌∷◌, arith, ◌==◌, if◌then◌else◌, count, find, keep, map_where, Text, Bool-cases,
  Option-cases, inl, inr, ==_iff,
}
use backendurdubolonest.Prisma.{Prisma}
use backendurdubolonest.Http.{Result, ok, err, Action, ◌>>=◌, modify}
use backendurdubolonest.Http.Keeps.{Keeps, Keeps-pure, Leads, Leads-bind, Leads-modify, keeps_rules}
use backendurdubolonest.Schema.{Backend}
use backendurdubolonest.Support.Gateway.Handlers.{
  add_room, FreshMessage, typing, stop_typing, join, joined_conversation, sent_by, deliver_unless,
  send_message, seen,
}
use backendurdubolonest.Auth.{AuthenticatedPrincipal}
use backendurdubolonest.Support.{SupportRuntime}
use backendurdubolonest.Support.Conversations.{FreshConversation}
use backendurdubolonest.Support.Gateway.{
  Room, Event, Target, AuthedSocket, Live, Handshake, on_backend, require_principal, is_socket,
  Gateway, online_count, connected, connect, left, handle_disconnect, look_up_principal,
  connection_begins, connection_resumes, awaits, emit, join_room, disconnect,
}
use backendurdubolonest.Support.Gateway.Presence.{
  is_of, entry, IsPresent, online_count-track_on, online_count-track_off, keep-count, keep-distinct,
}

-- The gateway and the identifier of a socket that is not connected.
abbrev pub IsNew : ℕ → Live → Type 0
IsNew id live = IsPresent live × (count (is_socket id) live.sockets ≡ 0)

abbrev IsFound : ℕ → AuthedSocket → Live → Type 0
IsFound id k live = IsPresent live × (find (is_socket id) live.sockets ≡ some k)

Keeps-emit : (target : Target) (event : Event) → Keeps IsPresent (emit target event)
unfolding emit modify
Keeps-emit target event = record { at = λ s h. record { distinct = h.distinct; online = h.online } }

Keeps-join_room : (id : ℕ) (room : Room) → Keeps IsPresent (join_room id room)
unfolding join_room modify
Keeps-join_room id room = record { at = λ s h. record { distinct = h.distinct; online = h.online } }

Keeps-disconnect : (id : ℕ) → Keeps IsPresent (disconnect id)
unfolding disconnect modify
Keeps-disconnect id = record { at = λ s h. record { distinct = h.distinct; online = h.online } }

Keeps-on_backend : {A : Type 0} (m : Action Backend A) → Keeps IsPresent (on_backend m)
unfolding on_backend
Keeps-on_backend m = record { at = λ s h. record { distinct = h.distinct; online = h.online } }

add_room-socket :
    (id j : ℕ) (r : Room) (ks : List AuthedSocket)
    → count (is_socket j) (map_where (is_socket id) (add_room r) ks) ≡ count (is_socket j) ks
add_room-socket id j r [] = refl
add_room-socket id j r (k ∷ ks) = ground (arith, add_room-socket id j r ks)

add_room-user :
    (id u : ℕ) (r : Room) (ks : List AuthedSocket)
    → count (is_of u) (map_where (is_socket id) (add_room r) ks) ≡ count (is_of u) ks
add_room-user id u r [] = refl
add_room-user id u r (k ∷ ks) = ground (arith, add_room-user id u r ks)

Keeps-remember :
    (id : ℕ) (r : Room)
    → Keeps IsPresent (
        modify
          (λ live. record live { sockets = map_where (is_socket id) (add_room r) live.sockets }))
unfolding modify
Keeps-remember id r = record {
  at = λ s h. record {
    distinct = λ j. omega (arith, add_room-socket id j r s.sockets, h.distinct j);
    online = λ u. h.online u ∙ sym (ap entry (add_room-user id u r s.sockets));
  };
}

ruleset presence_rules =
    (keeps_rules, Keeps-emit, Keeps-join_room, Keeps-disconnect, Keeps-on_backend, Keeps-remember)

-- Equal keys select equally many sockets.
selects :
    (p : ℕ → AuthedSocket → Bool) (a b : ℕ) (ks : List AuthedSocket)
    → (a == b) ≡ true
    → count (p a) ks ≡ count (p b) ks
selects p a b ks e = ap (λ k. count (p k) ks) ((==_iff a b).0 e)

one_more :
    (id j : ℕ) (p : AuthenticatedPrincipal) (live : Live)
    → IsNew id live
    → count (is_socket j) (record { id = id; principal = p; rooms_joined = [] } ∷ live.sockets) ≤ 1
one_more id j p live (h, new) = elim (Bool-cases (id == j)) [
  | inl e ↦ ground (arith, e, new, selects is_socket id j live.sockets e)
  | inr e ↦ ground (arith, e, h.distinct j)
]

counted_on :
    (id u : ℕ) (p : AuthenticatedPrincipal) (live : Live)
    → IsPresent live
    → (if u == p.id
        then some (count (is_of p.id) live.sockets + 1)
        else online_count u live.online_users)
      ≡ entry
          (count (is_of u) (record { id = id; principal = p; rooms_joined = [] } ∷ live.sockets))
counted_on id u p live h = elim (Bool-cases (u == p.id)) [
  | inl e ↦ ground (arith, e, selects is_of u p.id live.sockets e)
  | inr e ↦ ground (arith, e, h.online u)
]

counted_off :
    (id u : ℕ) (k : AuthedSocket) (live : Live)
    → IsFound id k live
    → (if u == k.principal.id
        then entry (count (is_of k.principal.id) live.sockets - 1)
        else online_count u live.online_users)
      ≡ entry (count (is_of u) (keep (λ j. not (is_socket id j)) live.sockets))
counted_off id u k live (h, found) =
    let one = keep-count id u k live.sockets (h.distinct id) found in
    elim (Bool-cases (u == k.principal.id)) [
      | inl e ↦ ground (arith, e, one, selects is_of u k.principal.id live.sockets e)
      | inr e ↦ ground (arith, e, one, h.online u)
    ]

connected-Leads :
    (env : SupportRuntime) (id : ℕ) (p : AuthenticatedPrincipal)
    → Leads (IsNew id) IsPresent (connected env id p)
connected-Leads env id p =
    Leads-bind _ _ _ _
      (Leads-modify _ _ _ (λ live (h, new). record {
        distinct = λ j. one_more id j p live (h, new);
        online = λ u.
            online_count-track_on u p.id (count (is_of p.id) live.sockets) live.online_users
              (h.online p.id)
            ∙ counted_on id u p live h;
      }))
      (λ _. search presence_rules depth 20)

left-Leads :
    (id : ℕ) (k : AuthedSocket) → Leads (IsFound id k) IsPresent (left id (some k.principal))
left-Leads id k =
    Leads-bind _ _ _ _
      (Leads-modify _ _ _ (λ live (h, found). record {
        distinct = λ j. omega (arith, keep-distinct id j live.sockets, h.distinct j);
        online = λ u.
            online_count-track_off u k.principal.id (count (is_of k.principal.id) live.sockets)
              live.online_users (h.online k.principal.id)
            ∙ counted_off id u k live (h, found);
      }))
      (λ _. search presence_rules depth 20)

connect-Leads :
    (env : SupportRuntime) (id : ℕ) (p : Option AuthenticatedPrincipal)
    → Leads (IsNew id) IsPresent (connect env id p)
connect-Leads env id none =
    let silent : Keeps IsPresent (connect env id none) = search presence_rules depth 20 in
    record { at = λ s (h, new). silent.at s h }
connect-Leads env id (some p) = connected-Leads env id p

awaits-live :
    (id : ℕ) (waiting : List (ℕ × Option AuthenticatedPrincipal))
    (r : Result (Option AuthenticatedPrincipal) × Live)
    → (awaits id waiting r).live ≡ r.1
awaits-live id waiting (ok p, live) = refl
awaits-live id waiting (err e, live) = refl

-- A connection: the token is looked up, which leaves the counts as they are, and later the socket
-- enters the gateway, or is closed.
Keeps-look_up_principal :
    (db : Prisma) (verify : Text → Option (ℕ × ℕ)) (h : Handshake) (now : ℕ)
    → Keeps IsPresent (look_up_principal db verify h now)
unfolding look_up_principal
Keeps-look_up_principal db verify h now = Keeps-on_backend _

pub IsPresent-connection_begins :
    (db : Prisma) (verify : Text → Option (ℕ × ℕ)) (id : ℕ) (h : Handshake) (now : ℕ) (g : Gateway)
    → IsPresent g.live
    → IsPresent (connection_begins db verify id h now g).live
unfolding connection_begins
IsPresent-connection_begins db verify id h now g k =
    subst IsPresent (sym (awaits-live id g.waiting (look_up_principal db verify h now g.live)))
      ((Keeps-look_up_principal db verify h now).at g.live k)

pub IsPresent-connection_resumes :
    (env : SupportRuntime) (id : ℕ) (p : Option AuthenticatedPrincipal) (g : Gateway)
    → IsNew id g.live
    → IsPresent (connection_resumes env id p g).live
unfolding connection_resumes
IsPresent-connection_resumes env id p g k = (connect-Leads env id p).at g.live k

pub IsPresent-handle_disconnect :
    (id : ℕ) (live : Live) → IsPresent live → IsPresent (handle_disconnect id live).1
unfolding handle_disconnect ◌>>=◌
IsPresent-handle_disconnect id live h = elim (Option-cases (find (is_socket id) live.sockets)) [
  | inl e ↦ rw e h
  | inr (k, e) ↦ rw e ((left-Leads id k).at live (h, e))
]

Keeps-require_principal : (id : ℕ) → Keeps IsPresent (require_principal id)
unfolding require_principal
Keeps-require_principal id = search presence_rules depth 20

pub Keeps-typing : (id cid : ℕ) → Keeps IsPresent (typing id cid)
unfolding typing
Keeps-typing id cid = search (presence_rules, Keeps-require_principal) depth 20

pub Keeps-stop_typing : (id cid : ℕ) → Keeps IsPresent (stop_typing id cid)
unfolding stop_typing
Keeps-stop_typing id cid = search (presence_rules, Keeps-require_principal) depth 20

module _ (db : Prisma) (env : SupportRuntime) where
  Keeps-joined_conversation :
      (asked : Option ℕ) (p : AuthenticatedPrincipal) (fresh : FreshConversation) (now : ℕ)
      → Keeps IsPresent (joined_conversation db env asked p fresh now)
  Keeps-joined_conversation none p fresh now = search presence_rules depth 20
  Keeps-joined_conversation (some id) p fresh now = search presence_rules depth 20

  pub Keeps-join :
      (id : ℕ) (asked : Option ℕ) (fresh : FreshConversation) (now : ℕ)
      → Keeps IsPresent (join db env id asked fresh now)
  unfolding join
  Keeps-join id asked fresh now =
      search (presence_rules, Keeps-require_principal, Keeps-joined_conversation) depth 40

  Keeps-sent_by :
      (staff : Bool) (asked : Option ℕ) (p : AuthenticatedPrincipal) (text : Text)
      (fresh : FreshMessage) (now : ℕ)
      → Keeps IsPresent (sent_by db env staff asked p text fresh now)
  Keeps-sent_by true (some id) p text fresh now = Keeps-on_backend _
  Keeps-sent_by true none p text fresh now = Keeps-on_backend _
  Keeps-sent_by false asked p text fresh now = Keeps-on_backend _

  Keeps-deliver_unless :
      (b : Bool) (text : Text) (asked : Option ℕ) (p : AuthenticatedPrincipal)
      (fresh : FreshMessage) (now : ℕ)
      → Keeps IsPresent (deliver_unless db env b text asked p fresh now)
  Keeps-deliver_unless true text asked p fresh now = Keeps-pure none
  Keeps-deliver_unless false text asked p fresh now =
      search (presence_rules, Keeps-sent_by) depth 40

  pub Keeps-send_message :
      (id : ℕ) (asked : Option ℕ) (text : Option Text) (fresh : FreshMessage) (now : ℕ)
      → Keeps IsPresent (send_message db env id asked text fresh now)
  unfolding send_message
  Keeps-send_message id asked text fresh now =
      search (presence_rules, Keeps-require_principal, Keeps-deliver_unless) depth 20

  pub Keeps-seen : (id cid now : ℕ) → Keeps IsPresent (seen db env id cid now)
  unfolding seen
  Keeps-seen id cid now = search (presence_rules, Keeps-require_principal) depth 30
