-- ===== src/Catalog/Rooted/Cascade.antt =====
-- A deleted drama takes everything below it along.
use backendurdubolonest.Base.{
  ℕ, ◌≡◌, refl, sym, ap, subst, ◌∙◌, Bool, true, false, ◌&&◌, List, [], ◌∷◌, inl, inr, arith, ◌==◌,
  if◌then◌else◌, is_none, any, elem, keep, map, map_where, count, Among, Bool-cases,
}
use mathlib.Core.Path.{fun_ext}
use backendurdubolonest.Prisma.{Prisma}
use backendurdubolonest.Prisma.Rows.{any-map_where}
use backendurdubolonest.Http.{Result, ok, ◌>>=◌, transaction}
use backendurdubolonest.Http.Inversion.{bind-eq-ok, raise_if-bind-ok}
use backendurdubolonest.Schema.{Backend, Season, Episode, MediaAsset}
use backendurdubolonest.Audit.{write_audit}
use backendurdubolonest.Auth.{AuthenticatedPrincipal, Request}
use backendurdubolonest.Catalog.{update_dramas, removed_season, removed_episode, removed_media}
use backendurdubolonest.Catalog.Dramas
use backendurdubolonest.Catalog.Rooted.{any-changed, any-never, elem-keys}
use backendurdubolonest.Catalog.Rooted.Removal.{
  is_listed_season, is_listed_episode, is_listed_media, episode-listed, seasons_of, episodes_of,
  drama_gone, remove_below_lem,
}

-- An episode of a season of the drama, and media of such an episode.
abbrev pub is_in_drama : ℕ → List Season → Episode → Bool
is_in_drama id xs e = any (λ x. x.drama_id == id && x.id == e.season_id) xs

abbrev pub is_below_drama : ℕ → List Season → List Episode → MediaAsset → Bool
is_below_drama id xs es m = any (λ e. is_in_drama id xs e && e.id == m.episode_id) es

-- No season of the drama is left alive, no episode of these, and no media.
abbrev pub IsCleared : ℕ → Backend → Type 0
IsCleared id t =
    (any (λ x. x.drama_id == id && is_none x.deleted_at) t.seasons ≡ false)
    × (any (λ e. is_in_drama id t.seasons e && is_none e.deleted_at) t.episodes ≡ false)
    × (any (λ m. is_below_drama id t.seasons t.episodes m && is_none m.deleted_at) t.media_assets
        ≡ false)

-- A key of a row that fits is among the keys of the rows that fit.
any-keys :
    {A : Type 0} (key : A → ℕ) (q r : A → Bool) (k : ℕ) (t : List A)
    → ((a : A) → Among a t → q a ≡ true → r a ≡ true)
    → any (λ a. q a && key a == k) t ≡ true
    → elem k (map key (keep r t)) ≡ true
any-keys key q r k [] step h = h
any-keys key q r k (a ∷ t) step h =
    ground (arith, step a (inl refl), any-keys key q r k t (λ b m. step b (inr m)), h)

module _ (db : Prisma) (id : ℕ) (s : Backend) where
  in-drama :
      (e : Episode)
      → is_in_drama id s.seasons e ≡ true
      → elem e.season_id (seasons_of db id s) ≡ true
  in-drama e h = rw (db.find_many_lem (λ (x : Season). x.drama_id == id) s.seasons) (
      any-keys (λ (x : Season). x.id) (λ x. x.drama_id == id) (λ x. x.drama_id == id) e.season_id
        s.seasons (λ x among q. q) h)

  below-drama :
      (m : MediaAsset)
      → is_below_drama id s.seasons s.episodes m ≡ true
      → elem m.episode_id (episodes_of db id s) ≡ true
  below-drama m h =
      rw (db.find_many_lem (λ (e : Episode). elem e.season_id (seasons_of db id s)) s.episodes) (
        any-keys (λ (e : Episode). e.id) (is_in_drama id s.seasons)
          (λ e. elem e.season_id (seasons_of db id s)) m.episode_id s.episodes
          (λ e among. in-drama e) h)

  same-drama :
      (now : ℕ) (e : Episode)
      → is_in_drama id (drama_gone db id now s).seasons e ≡ is_in_drama id s.seasons e
  same-drama now e =
      any-map_where (λ x. x.drama_id == id && x.id == e.season_id)
        (is_listed_season (seasons_of db id s)) (removed_season now) s.seasons (λ x. refl)

  same-below :
      (now : ℕ) (m : MediaAsset)
      → is_below_drama id (drama_gone db id now s).seasons (drama_gone db id now s).episodes m
        ≡ is_below_drama id s.seasons s.episodes m
  same-below now m =
      any-map_where (λ e. is_in_drama id (drama_gone db id now s).seasons e && e.id == m.episode_id)
        (is_listed_episode (episodes_of db id s)) (removed_episode now) s.episodes (λ e. refl)
      ∙ ap (λ (q : Episode → Bool). any (λ e. q e && e.id == m.episode_id) s.episodes)
          (fun_ext (same-drama now))

  season-cleared :
      (now : ℕ) (x : Season)
      → Among x s.seasons
      → ((if is_listed_season (seasons_of db id s) x then removed_season now x else x).drama_id
            == id
          && is_none
              (if is_listed_season (seasons_of db id s) x
                then removed_season now x
                else x).deleted_at)
        ≡ false
  season-cleared now x among = elim (Bool-cases (x.drama_id == id)) [
    | inl hit ↦
        let listed : elem x.id (seasons_of db id s) ≡ true =
          rw (db.find_many_lem (λ (y : Season). y.drama_id == id) s.seasons)
            (elem-keys (λ (y : Season). y.id) (λ y. y.drama_id == id) s.seasons x among hit) in
        ground (arith, listed)
    | inr miss ↦ ground (arith, miss)
  ]

  episode-cleared :
      (now : ℕ) (e : Episode)
      → Among e s.episodes
      → (is_in_drama id s.seasons e
          && is_none
              (if is_listed_episode (episodes_of db id s) e
                then removed_episode now e
                else e).deleted_at)
        ≡ false
  episode-cleared now e among = elim (Bool-cases (is_in_drama id s.seasons e)) [
    | inl hit ↦
        let listed : elem e.id (episodes_of db id s) ≡ true =
          episode-listed db (λ k. elem k (seasons_of db id s)) s e among (in-drama e hit) in
        ground (arith, listed)
    | inr miss ↦ rw miss refl
  ]

  media-cleared :
      (now : ℕ) (m : MediaAsset)
      → (is_below_drama id s.seasons s.episodes m
          && is_none
              (if is_listed_media (episodes_of db id s) m
                then removed_media now m
                else m).deleted_at)
        ≡ false
  media-cleared now m = elim (Bool-cases (is_below_drama id s.seasons s.episodes m)) [
    | inl hit ↦ ground (arith, below-drama m hit)
    | inr miss ↦ rw miss refl
  ]

  moved-episode :
      (b : Bool) (now : ℕ) (xs : List Season) (e : Episode)
      → is_in_drama id xs (if b then removed_episode now e else e) ≡ is_in_drama id xs e
  moved-episode true now xs e = refl
  moved-episode false now xs e = refl

  moved-media :
      (b : Bool) (now : ℕ) (xs : List Season) (es : List Episode) (m : MediaAsset)
      → is_below_drama id xs es (if b then removed_media now m else m) ≡ is_below_drama id xs es m
  moved-media true now xs es m = refl
  moved-media false now xs es m = refl

  drama_gone-IsCleared : (now : ℕ) → IsCleared id (drama_gone db id now s)
  drama_gone-IsCleared now =
      let t = drama_gone db id now s in
      (
        any-changed (λ _. false) _ (is_listed_season (seasons_of db id s)) (removed_season now)
            s.seasons (λ x among q. season-cleared now x among) (any-never s.seasons),
        any-changed (λ _. false) _ (is_listed_episode (episodes_of db id s)) (removed_episode now)
            s.episodes
            (λ e among q.
              rw
                (
                  moved-episode (is_listed_episode (episodes_of db id s) e) now t.seasons e,
                  same-drama now e,
                )
                (episode-cleared now e among))
            (any-never s.episodes),
        any-changed (λ _. false) _ (is_listed_media (episodes_of db id s)) (removed_media now)
            s.media_assets
            (λ m among q.
              rw
                (
                  moved-media (is_listed_media (episodes_of db id s) m) now t.seasons t.episodes m,
                  same-below now m,
                )
                (media-cleared now m))
            (any-never s.media_assets),
      )

  -- The drama itself is marked first.
  abbrev pub marked : ℕ → Backend
  marked now = record s {
    dramas = map_where (Dramas.is_kept_drama (λ k. k == id)) (Dramas.removed_drama now) s.dramas;
  }

  abbrev pub found : ℕ
  found = count (Dramas.is_kept_drama (λ k. k == id)) s.dramas

  pub remove_rows-none :
      (now : ℕ)
      → (found == 0) ≡ true
      → transaction (Dramas.remove_rows db id now) s ≡ (ok 0, marked now)
  unfolding Dramas.remove_rows update_dramas ◌>>=◌
  remove_rows-none now e =
      rw
        (
          db.update_many_lem (Dramas.is_kept_drama (λ k. k == id)) (Dramas.removed_drama now)
              s.dramas,
          e,
        )
        refl

  pub remove_rows-some :
      (now : ℕ)
      → (found == 0) ≡ false
      → transaction (Dramas.remove_rows db id now) s ≡ (ok 1, drama_gone db id now (marked now))
  unfolding Dramas.remove_rows update_dramas ◌>>=◌
  remove_rows-some now e =
      rw
        (
          db.update_many_lem (Dramas.is_kept_drama (λ k. k == id)) (Dramas.removed_drama now)
              s.dramas,
          e,
          remove_below_lem db id now (marked now),
        )
        refl

  remove_rows-IsCleared :
      (now n : ℕ) (t : Backend)
      → transaction (Dramas.remove_rows db id now) s ≡ (ok n, t)
      → (n == 0) ≡ false
      → IsCleared id t
  remove_rows-IsCleared now n t h some_row = elim (Bool-cases (found == 0)) [
    | inl e ↦ let same = sym (remove_rows-none now e) ∙ h in absurd (ground (arith, same, some_row))
    | inr e ↦
        subst (IsCleared id)
          (ap (λ (v : Result ℕ × Backend). v.1) (sym (remove_rows-some now e) ∙ h))
          (drama_gone-IsCleared now)
  ]

-- When `remove` of a drama returns, no season of this drama is left that is not deleted, no such
-- episode of its seasons, and no such media of these episodes.
pub remove-IsCleared :
    (db : Prisma) (id : ℕ) (actor : AuthenticatedPrincipal) (r : Request) (s t : Backend)
    → Dramas.remove db id actor r s ≡ (ok tt, t)
    → IsCleared id t
unfolding Dramas.remove write_audit
remove-IsCleared db id actor r s t h =
    let (n, s1, e1, h1) = bind-eq-ok _ _ s t tt h in
    let (some_row, h2) = raise_if-bind-ok _ _ _ s1 t tt h1 in
    subst (IsCleared id) (ap (λ (v : Result (Unit {0}) × Backend). v.1) h2)
      (remove_rows-IsCleared db id s r.now n s1 e1 some_row)
