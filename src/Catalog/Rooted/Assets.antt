-- ===== src/Catalog/Rooted/Assets.antt =====
-- Every method that changes media keeps what is alive on what is alive.
use backendurdubolonest.Base.{
  ℕ, ◌≤◌, ◌≡◌, refl, subst, Bool, true, false, ◌&&◌, List, inl, inr, arith, ◌==◌, is_some, any,
  count, map_where, Among, Bool-cases, Option-cases,
}
use backendurdubolonest.Prisma.{Prisma}
use backendurdubolonest.Prisma.Rows.{unique-of-count}
use backendurdubolonest.Http.{Action, ◌>>=◌, ◌>>◌, pure, rethrow}
use backendurdubolonest.Http.Keeps.{
  Keeps, Leads, Leads-bind, Leads-trans, Leads-rethrow, Keeps-Leads, Keeps-gets, Keeps-raise_if,
  keeps_rules,
}
use backendurdubolonest.Schema.{Backend, Episode, MediaAsset, AuditEvent}
use backendurdubolonest.Audit.{write_audit}
use backendurdubolonest.Auth.{AuthenticatedPrincipal, Request, Runtime}
use backendurdubolonest.Catalog.{update_media, removed_media}
use backendurdubolonest.Catalog.Media
use backendurdubolonest.Catalog.Rooted.{is_episode_at, IsRooted, is_lost_media, any-changed}
use backendurdubolonest.Catalog.Rooted.Writes.{
  Keeps-write_audit, Keeps-update_media, media_row-Leads, live_episode-found,
}

-- The key of a medium is a primary key.
abbrev pub IsMediaKey : ℕ → Backend → Type 0
IsMediaKey id s = count (λ m. m.id == id) s.media_assets ≤ 1

module _ (db : Prisma) where
  after-episode :
      {A : Type 0} (k : ℕ) (m : Action Backend A)
      → Leads (λ s. IsRooted s × (any (is_episode_at k) s.episodes ≡ true)) IsRooted m
      → Keeps IsRooted (Media.ensure_episode db k >> m)
  unfolding Media.ensure_episode ◌>>=◌
  after-episode k m leads = record {
    at = λ s rooted. elim (Bool-cases (Media.has_live_episode db s k)) [
      | inl found ↦ rw found (leads.at s (rooted, live_episode-found db s k found))
      | inr missing ↦ rw missing rooted
    ];
  }

  media-changes :
      (env : Runtime) (dto : Media.UpdateMediaAssetDto) (current : MediaAsset) (now id : ℕ)
      → Keeps IsRooted (update_media db (λ m. m.id == id) (Media.with_changes env dto current now))
  media-changes env dto current now id = Keeps-update_media db _ _ (λ es m hit kept. kept)

  media-removed :
      (p : MediaAsset → Bool) (now : ℕ) → Keeps IsRooted (update_media db p (removed_media now))
  media-removed p now = Keeps-update_media db p _ (λ es m hit kept. refl)

ruleset asset_rules = (keeps_rules, Keeps-write_audit)

module _ (db : Prisma) (actor : AuthenticatedPrincipal) (r : Request) where
  media-create_rest :
      (env : Runtime) (dto : Media.CreateMediaAssetDto) (id : ℕ) (input : AuditEvent)
      → Leads
          (λ s. IsRooted s × (any (is_episode_at dto.episode_id) s.episodes ≡ true))
          IsRooted
          (rethrow Media.media_in_use (
            Media.create_row db (Media.new_media env dto id)
            >> (write_audit db input >> pure (Media.new_media env dto id))))
  media-create_rest env dto id input = Leads-rethrow _ _ _ _ (
      Leads-bind _ _ _ _ (media_row-Leads db (Media.new_media env dto id))
        (λ _. search asset_rules depth 10))

  pub media-create :
      (env : Runtime) (dto : Media.CreateMediaAssetDto) (id : ℕ)
      → Keeps IsRooted (Media.create db env dto id actor r)
  unfolding Media.create
  media-create env dto id =
      let P : Backend → Type 0 =
        λ (s : Backend). IsRooted s × (any (is_episode_at dto.episode_id) s.episodes ≡ true) in
      after-episode db dto.episode_id _ (
        Leads-trans P P IsRooted _ _ (λ s k. k.0) (Keeps-Leads _ (Keeps-gets _))
          (λ existing.
            Leads-trans P P IsRooted _ _ (λ s k. k.0) (Keeps-Leads _ (Keeps-raise_if _ _))
              (λ _. media-create_rest env dto id _)))

  pub media-update :
      (env : Runtime) (id : ℕ) (dto : Media.UpdateMediaAssetDto)
      → Keeps IsRooted (Media.update db env id dto actor r)
  unfolding Media.update Media.update_row
  media-update env id dto = search (asset_rules, media-changes) depth 30

  pub media-remove : (id : ℕ) → Keeps IsRooted (Media.remove db id actor r)
  unfolding Media.remove
  media-remove id = search (asset_rules, media-removed) depth 30

held-rooted :
    (es : List Episode) (m : MediaAsset)
    → any (is_episode_at m.episode_id) es ≡ true
    → is_lost_media es (Media.restored m) ≡ false
held-rooted es m h = ground (arith, h)

module _ (db : Prisma) where
  -- The test by which `restore` finds the deleted media.
  abbrev is_restorable : ℕ → Backend → MediaAsset → Bool
  is_restorable id s m =
      m.id == id && (is_some m.deleted_at && Media.has_live_episode db s m.episode_id)

  restored-IsRooted :
      (id : ℕ) (s : Backend) (a : MediaAsset)
      → Among a s.media_assets
      → is_restorable id s a ≡ true
      → IsMediaKey id s
      → IsRooted s
      → IsRooted
          (record s { media_assets = map_where (λ m. m.id == id) Media.restored s.media_assets })
  restored-IsRooted id s a there fits one (h, k) =
      let live : any (is_episode_at a.episode_id) s.episodes ≡ true =
        live_episode-found db s a.episode_id (ground (arith, fits)) in
      (
        h,
        any-changed (is_lost_media s.episodes) (is_lost_media s.episodes) (λ m. m.id == id)
            Media.restored s.media_assets
            (λ m among kept. elim (Bool-cases (m.id == id)) [
              | inl hit ↦
                  let same =
                    unique-of-count (λ (x : MediaAsset). x.id == id) a m s.media_assets one there
                      among (ground (arith, fits)) hit in
                  rw hit (
                    held-rooted s.episodes m (
                      subst (λ (x : MediaAsset). any (is_episode_at x.episode_id) s.episodes ≡ true)
                        same live))
              | inr miss ↦ rw miss kept
            ])
            k,
      )

  -- The media with a key are among those to restore, and only they have the key.
  abbrev IsRestoring : ℕ → MediaAsset → Backend → Type 0
  IsRestoring id a s =
      IsRooted s × IsMediaKey id s × Among a s.media_assets × (is_restorable id s a ≡ true)

  restored-Leads :
      (id : ℕ) (a : MediaAsset)
      → Leads (IsRestoring id a) IsRooted (update_media db (λ m. m.id == id) Media.restored)
  unfolding update_media ◌>>=◌
  restored-Leads id a = record {
    at = λ s (rooted, one, there, fits).
        rw (db.update_many_lem (λ m. m.id == id) Media.restored s.media_assets)
          (restored-IsRooted id s a there fits one rooted);
  }

  restore_rest :
      (id : ℕ) (input : AuditEvent) (a : MediaAsset)
      → Leads
          (IsRestoring id a)
          IsRooted
          (Media.update_row db id Media.restored >> write_audit db input)
  unfolding Media.update_row
  restore_rest id input a =
      Leads-bind _ _ _ _ (Leads-bind _ _ _ _ (restored-Leads id a) (λ changed. Keeps-raise_if _ _))
        (λ _. Keeps-write_audit db input)

  pub media-restore :
      (id : ℕ) (actor : AuthenticatedPrincipal) (r : Request)
      → Leads (λ s. IsRooted s × IsMediaKey id s) IsRooted (Media.restore db id actor r)
  unfolding Media.restore ◌>>=◌
  media-restore id actor r = record {
    at = λ s (rooted, one).
        elim (Option-cases (db.find_first (is_restorable id s) s.media_assets)) [
          | inl e ↦ rw e rooted
          | inr (a, e) ↦
              let (there, fits) = db.find_first_some _ _ a e in
              rw e ((restore_rest id _ a).at s (rooted, one, there, fits))
        ];
  }
