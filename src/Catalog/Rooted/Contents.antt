-- ===== src/Catalog/Rooted/Contents.antt =====
-- Every method that changes episodes keeps what is alive on what is alive.
use backendurdubolonest.Base.{
  ℕ, ◌≡◌, subst, Bool, true, false, Option, none, some, List, inl, inr, arith, ◌==◌, any,
  Bool-cases, Option-cases,
}
use backendurdubolonest.Prisma.{Prisma}
use backendurdubolonest.Http.{Action, ◌>>=◌, ◌>>◌, rethrow}
use backendurdubolonest.Http.Keeps.{
  Keeps, Leads, Leads-bind, Leads-trans, Leads-rethrow, Keeps-Leads, Keeps-bind, Keeps-pure,
  Keeps-gets, Keeps-raise_if, keeps_rules,
}
use backendurdubolonest.Schema.{Backend, Episode, AuditEvent}
use backendurdubolonest.Audit.{write_audit}
use backendurdubolonest.Auth.{AuthenticatedPrincipal, Request}
use backendurdubolonest.Catalog.{has_live_season, update_episodes}
use backendurdubolonest.Catalog.Episodes
use backendurdubolonest.Catalog.Rooted.{is_season_at, is_episode_at, IsRooted, is_lost_episode}
use backendurdubolonest.Catalog.Rooted.Chosen.{Keeps-episode_rows, Keeps-bulk_episode}
use backendurdubolonest.Catalog.Rooted.Writes.{
  episodes-changed, Keeps-write_audit, episode_row-Leads, live_season-found,
}

-- The season that an update moves an episode to is alive.
abbrev HasSeason : Option ℕ → Backend → Type 0
HasSeason none s = Unit
HasSeason (some k) s = any (is_season_at k) s.seasons ≡ true

abbrev IsReady : Option ℕ → Backend → Type 0
IsReady season s = IsRooted s × HasSeason season s

same-episode :
    (dto : Episodes.UpdateEpisodeDto) (k : ℕ) (e : Episode)
    → is_episode_at k e ≡ true
    → is_episode_at k (Episodes.with_changes dto e) ≡ true
same-episode dto k e h = elim (Option-cases (Episodes.changed_status dto)) [
  | inl none_set ↦ ground (arith, none_set, h)
  | inr (status, set) ↦ ground (arith, set, h)
]

changed-rooted :
    (dto : Episodes.UpdateEpisodeDto) (s : Backend) (e : Episode)
    → HasSeason dto.season_id s
    → is_lost_episode s.seasons e ≡ false
    → is_lost_episode s.seasons (Episodes.with_changes dto e) ≡ false
changed-rooted dto s e ready h = elim (Option-cases dto.season_id) [
  | inl stays ↦ elim (Option-cases (Episodes.changed_status dto)) [
    | inl none_set ↦ rw (stays, none_set) h
    | inr (status, set) ↦ rw (stays, set) h
  ]
  | inr (k, moves) ↦
      let live : any (is_season_at k) s.seasons ≡ true =
        subst (λ (o : Option ℕ). HasSeason o s) moves ready in
      elim (Option-cases (Episodes.changed_status dto)) [
        | inl none_set ↦ rw (moves, none_set) (ground (arith, live))
        | inr (status, set) ↦ rw (moves, set) (ground (arith, live))
      ]
]

module _ (db : Prisma) where
  changes-Leads :
      (id : ℕ) (dto : Episodes.UpdateEpisodeDto)
      → Leads
          (IsReady dto.season_id)
          IsRooted
          (update_episodes db (λ e. e.id == id) (Episodes.with_changes dto))
  unfolding update_episodes ◌>>=◌
  changes-Leads id dto = record {
    at = λ s (rooted, ready).
        rw (db.update_many_lem (λ e. e.id == id) (Episodes.with_changes dto) s.episodes) (
          episodes-changed (λ e. e.id == id) (Episodes.with_changes dto) s
            (λ e hit kept. changed-rooted dto s e ready kept) (same-episode dto) rooted);
  }

  row-Leads :
      (id : ℕ) (dto : Episodes.UpdateEpisodeDto)
      → Leads
          (IsReady dto.season_id)
          IsRooted
          (Episodes.update_row db id (Episodes.with_changes dto))
  unfolding Episodes.update_row
  row-Leads id dto =
      let P = IsReady dto.season_id in
      Leads-trans P P IsRooted _ _ (λ s k. k.0) (Keeps-Leads _ (search keeps_rules depth 10))
        (λ row.
          Leads-trans P P IsRooted _ _ (λ s k. k.0) (Keeps-Leads _ (Keeps-gets _))
            (λ taken.
              Leads-trans P P IsRooted _ _ (λ s k. k.0) (Keeps-Leads _ (Keeps-raise_if _ _))
                (λ _. Leads-bind _ _ _ _ (changes-Leads id dto) (λ _. Keeps-pure tt))))

  -- What comes after the test of the new season may rely on it.
  after-season :
      {A : Type 0} (k : ℕ) (m : Action Backend A)
      → Leads (λ s. IsRooted s × (any (is_season_at k) s.seasons ≡ true)) IsRooted m
      → Keeps IsRooted (Episodes.ensure_season db k >> m)
  unfolding Episodes.ensure_season ◌>>=◌
  after-season k m leads = record {
    at = λ s rooted. elim (Bool-cases (has_live_season db s k)) [
      | inl found ↦ rw found (leads.at s (rooted, live_season-found db s k found))
      | inr missing ↦ rw missing rooted
    ];
  }

  after-new_season :
      {A : Type 0} (season : Option ℕ) (m : Action Backend A)
      → Leads (IsReady season) IsRooted m
      → Keeps IsRooted (Episodes.ensure_new_season db season >> m)
  unfolding ◌>>=◌
  after-new_season none m leads = record { at = λ s rooted. leads.at s (rooted, tt) }
  after-new_season (some k) m leads = unfold ◌>>=◌ in after-season k m leads

ruleset content_rules = (keeps_rules, Keeps-write_audit, Keeps-episode_rows, Keeps-bulk_episode)

module _ (db : Prisma) where
  under-restored :
      (which : ℕ → Bool)
      → Keeps IsRooted (Episodes.update_under db (Episodes.is_removed which) Episodes.restored)
  unfolding Episodes.update_under update_episodes ◌>>=◌
  under-restored which = record {
    at = λ s rooted.
        let p = Episodes.is_removed which (has_live_season db s) in
        rw (db.update_many_lem p Episodes.restored s.episodes) (
          episodes-changed p Episodes.restored s
            (λ e hit kept. ground (arith, live_season-found db s e.season_id (ground (arith, hit))))
            (λ k e at. ground (arith, at)) rooted);
  }

  under-published :
      (which : ℕ → Bool) (b : Bool)
      → Keeps IsRooted (Episodes.update_under db (Episodes.is_live which) (Episodes.published_as b))
  unfolding Episodes.update_under update_episodes ◌>>=◌
  under-published which b = record {
    at = λ s rooted.
        let p = Episodes.is_live which (has_live_season db s) in
        rw (db.update_many_lem p (Episodes.published_as b) s.episodes) (
          episodes-changed p (Episodes.published_as b) s (λ e hit kept. kept) (λ k e at. at)
            rooted);
  }

module _ (db : Prisma) (actor : AuthenticatedPrincipal) (r : Request) where
  pub episode-create :
      (dto : Episodes.CreateEpisodeDto) (id : ℕ)
      → Keeps IsRooted (Episodes.create db dto id actor r)
  unfolding Episodes.create
  episode-create dto id = after-season db dto.season_id _ (
      Leads-rethrow _ _ _ _ (
        Leads-bind _ _ _ _ (episode_row-Leads db (Episodes.new_episode dto id))
          (λ _. search content_rules depth 10)))

  episode-changed :
      (id : ℕ) (dto : Episodes.UpdateEpisodeDto) (input : AuditEvent)
      → Keeps IsRooted (
          Episodes.ensure_new_season db dto.season_id
          >> rethrow Episodes.number_in_use
              (Episodes.update_row db id (Episodes.with_changes dto) >> write_audit db input))
  episode-changed id dto input = after-new_season db dto.season_id _ (
      Leads-rethrow _ _ _ _
        (Leads-bind _ _ _ _ (row-Leads db id dto) (λ _. Keeps-write_audit db input)))

  pub episode-update :
      (id : ℕ) (dto : Episodes.UpdateEpisodeDto)
      → Keeps IsRooted (Episodes.update db id dto actor r)
  unfolding Episodes.update
  episode-update id dto =
      Keeps-bind _ _ (search keeps_rules depth 10) (λ _. episode-changed id dto _)

  pub episode-remove : (id : ℕ) → Keeps IsRooted (Episodes.remove db id actor r)
  unfolding Episodes.remove
  episode-remove id = search content_rules depth 30

  pub episode-restore : (id : ℕ) → Keeps IsRooted (Episodes.restore db id actor r)
  unfolding Episodes.restore
  episode-restore id = search (content_rules, under-restored) depth 20

  pub episode-publish : (id : ℕ) (b : Bool) → Keeps IsRooted (Episodes.publish db id b actor r)
  unfolding Episodes.publish
  episode-publish id b = search (content_rules, under-published) depth 20

  episode-bulk_rows :
      (action : Episodes.BulkAction) (ids : List ℕ) (now : ℕ)
      → Keeps IsRooted (Episodes.bulk_rows db action ids now)
  episode-bulk_rows Episodes.BulkAction.bulk_publish ids now =
      unfold Episodes.bulk_rows in under-published db _ true
  episode-bulk_rows Episodes.BulkAction.bulk_unpublish ids now =
      unfold Episodes.bulk_rows in under-published db _ false
  episode-bulk_rows Episodes.BulkAction.bulk_restore ids now =
      unfold Episodes.bulk_rows in under-restored db _
  episode-bulk_rows Episodes.BulkAction.bulk_delete ids now = Keeps-bulk_episode db ids now

  pub episode-bulk :
      (action : Episodes.BulkAction) (ids : List ℕ)
      → Keeps IsRooted (Episodes.bulk db action ids actor r)
  unfolding Episodes.bulk
  episode-bulk action ids = search (content_rules, episode-bulk_rows) depth 20
