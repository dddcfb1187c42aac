-- ===== src/Support/Gateway/Presence.antt =====
-- `onlineUsers` of src/support-chat/support-chat.gateway.ts counts the sockets of each user.
use backendurdubolonest.Base.{
  ℕ, ◌+◌, ◌-◌, ◌≤◌, ◌≡◌, refl, ap, ◌∙◌, Bool, not, Option, none, some, List, [], ◌∷◌, arith, ◌==◌,
  if◌then◌else◌, count, find, keep, Bool-cases, inl, inr,
}
use backendurdubolonest.Support.Gateway.{
  AuthedSocket, Live, is_socket, online_count, delete_count, store_count, or_zero, track_on,
  track_off,
}

abbrev pub is_of : ℕ → AuthedSocket → Bool
is_of user_id k = k.principal.id == user_id

-- What `Map.get` gives for a user with so many sockets: no entry for none.
abbrev pub entry : ℕ → Option ℕ
entry n = if n == 0 then none else some n

-- No two sockets have one identifier, and every user has an entry for the number of sockets.
pub record IsPresent (live : Live) : Type 0 where
  pub distinct : (id : ℕ) → count (is_socket id) live.sockets ≤ 1
  pub online : (u : ℕ) → online_count u live.online_users ≡ entry (count (is_of u) live.sockets)

online_count-delete :
    (u v : ℕ) (us : List (ℕ × ℕ))
    → online_count u (delete_count v us) ≡ (if u == v then none else online_count u us)
online_count-delete u v [] = ground arith
online_count-delete u v ((w, n) ∷ us) = ground (arith, online_count-delete u v us)

online_count-store :
    (u v n : ℕ) (us : List (ℕ × ℕ))
    → online_count u (store_count v n us) ≡ (if u == v then entry n else online_count u us)
online_count-store u v n us = ground (arith, online_count-delete u v us)

or_zero-entry : (n : ℕ) → or_zero (entry n) ≡ n
or_zero-entry n = ground arith

pub online_count-track_on :
    (u v n : ℕ) (us : List (ℕ × ℕ))
    → online_count v us ≡ entry n
    → online_count u (track_on v us) ≡ (if u == v then some (n + 1) else online_count u us)
unfolding track_on
online_count-track_on u v n us h =
    online_count-store u v (or_zero (online_count v us) + 1) us ∙ ground (arith, h, or_zero-entry n)

pub online_count-track_off :
    (u v n : ℕ) (us : List (ℕ × ℕ))
    → online_count v us ≡ entry n
    → online_count u (track_off v us) ≡ (if u == v then entry (n - 1) else online_count u us)
unfolding track_off
online_count-track_off u v n us h =
    online_count-store u v (or_zero (online_count v us) - 1) us ∙ ground (arith, h, or_zero-entry n)

keep-none :
    (id u : ℕ) (ks : List AuthedSocket)
    → count (is_socket id) ks ≤ 0
    → count (is_of u) (keep (λ j. not (is_socket id j)) ks) ≡ count (is_of u) ks
keep-none id u [] h = refl
keep-none id u (k ∷ ks) h = ground (arith, keep-none id u ks)

-- A socket that is the only one with its identifier is one of the sockets of its user.
pub keep-count :
    (id u : ℕ) (k : AuthedSocket) (ks : List AuthedSocket)
    → count (is_socket id) ks ≤ 1
    → find (is_socket id) ks ≡ some k
    → count (is_of u) (keep (λ j. not (is_socket id j)) ks) + (if u == k.principal.id then 1 else 0)
      ≡ count (is_of u) ks
keep-count id u k [] one h = cc
keep-count id u k (j ∷ ks) one h = elim (Bool-cases (is_socket id j)) [
  | inl same ↦
      let e : j ≡ k = ground arith in
      let principal : j.principal.id ≡ k.principal.id =
        ap (λ (x : AuthedSocket). x.principal.id) e in
      ground (arith, same, principal, keep-none id u ks)
  | inr other ↦ ground (arith, other, keep-count id u k ks)
]

pub keep-distinct :
    (id j : ℕ) (ks : List AuthedSocket)
    → count (is_socket j) (keep (λ k. not (is_socket id k)) ks) ≤ count (is_socket j) ks
keep-distinct id j [] = omega arith
keep-distinct id j (k ∷ ks) = ground (arith, keep-distinct id j ks)
