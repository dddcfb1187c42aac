-- ===== src/Catalog/Episodes/Published.antt =====
-- An episode is published exactly if its status says so.
use backendurdubolonest.Base.{
  ℕ, ◌≡◌, refl, Bool, true, false, not, ◌&&◌, List, [], ◌∷◌, arith, if◌then◌else◌, is_none, is_some,
  any, map_where, Bool-cases, inl, inr,
}
use backendurdubolonest.Prisma.{Prisma}
use backendurdubolonest.Http.{◌>>=◌}
use backendurdubolonest.Http.Keeps.{
  Keeps, Keeps-bind, Keeps-pure, Keeps-gets, Keeps-or_raise, Keeps-raise_if, keeps_rules,
}
use backendurdubolonest.Schema.{Backend, Episode, MediaAsset, AuditEvent, is_published_status}
use backendurdubolonest.Audit.{write_audit}
use backendurdubolonest.Catalog.{update_episodes, update_media, removed_episode}
use backendurdubolonest.Catalog.Episodes.{
  CreateEpisodeDto, new_episode, published_as, restored, episode_clash, is_live, is_removed,
  create_row, update_under,
}

-- The flag agrees with the status, and nothing deleted is published.
abbrev pub is_consistent : Episode → Bool
is_consistent e =
    (if e.is_published then is_published_status e.status else not (is_published_status e.status))
    && not (is_some e.deleted_at && e.is_published)

abbrev pub AreConsistent : Backend → Type 0
AreConsistent s = any (λ e. not (is_consistent e)) s.episodes ≡ false

-- A change that turns consistent episodes into consistent ones, of the episodes that a test selects.
pub changed-AreConsistent :
    (p : Episode → Bool) (f : Episode → Episode) (es : List Episode)
    → ((e : Episode) → p e ≡ true → is_consistent e ≡ true → is_consistent (f e) ≡ true)
    → any (λ e. not (is_consistent e)) es ≡ false
    → any (λ e. not (is_consistent e)) (map_where p f es) ≡ false
changed-AreConsistent p f [] step h = refl
changed-AreConsistent p f (e ∷ es) step h =
    ground (arith, step e, changed-AreConsistent p f es step)

new_episode-consistent :
    (dto : CreateEpisodeDto) (id : ℕ) → is_consistent (new_episode dto id) ≡ true
new_episode-consistent dto id = ground arith

published_as-consistent :
    (b : Bool) (e : Episode) → is_none e.deleted_at ≡ true → is_consistent (published_as b e) ≡ true
published_as-consistent true e live = ground (arith, live)
published_as-consistent false e live = ground (arith, live)

restored-consistent :
    (e : Episode)
    → is_some e.deleted_at ≡ true
    → is_consistent e ≡ true
    → is_consistent (restored e) ≡ true
restored-consistent e gone h = ground (arith, gone, h)

module _ (db : Prisma) where
  pub Keeps-update_episodes :
      (p : Episode → Bool) (f : Episode → Episode)
      → ((e : Episode) → p e ≡ true → is_consistent e ≡ true → is_consistent (f e) ≡ true)
      → Keeps AreConsistent (update_episodes db p f)
  unfolding update_episodes ◌>>=◌
  Keeps-update_episodes p f step = record {
    at =
        λ s h. rw (db.update_many_lem p f s.episodes) (changed-AreConsistent p f s.episodes step h);
  }

  pub Keeps-update_media :
      (p : MediaAsset → Bool) (f : MediaAsset → MediaAsset)
      → Keeps AreConsistent (update_media db p f)
  unfolding update_media ◌>>=◌
  Keeps-update_media p f = record { at = λ s h. h }

  pub Keeps-write_audit : (input : AuditEvent) → Keeps AreConsistent (write_audit db input)
  unfolding write_audit
  Keeps-write_audit input = record { at = λ s h. h }

  pub Keeps-create_row :
      (dto : CreateEpisodeDto) (id : ℕ) → Keeps AreConsistent (create_row db (new_episode dto id))
  unfolding create_row ◌>>=◌
  Keeps-create_row dto id = record {
    at = λ s h. elim (Bool-cases (any (episode_clash (new_episode dto id)) s.episodes)) [
      | inl clash ↦ rw (db.create_lem episode_clash (new_episode dto id) s.episodes, clash) h
      | inr free ↦
          rw (db.create_lem episode_clash (new_episode dto id) s.episodes, free)
            (ground (arith, new_episode-consistent dto id, h))
    ];
  }

  pub Keeps-published :
      (which : ℕ → Bool) (b : Bool)
      → Keeps AreConsistent (update_under db (is_live which) (published_as b))
  unfolding update_under
  Keeps-published which b = Keeps-bind _ _ (Keeps-gets _) (λ parent.
      Keeps-update_episodes _ _ (λ e p h. published_as-consistent b e (ground (arith, p))))

  pub Keeps-restored :
      (which : ℕ → Bool) → Keeps AreConsistent (update_under db (is_removed which) restored)
  unfolding update_under
  Keeps-restored which =
      Keeps-bind _ _ (Keeps-gets _)
        (λ parent. Keeps-update_episodes _ _ (λ e p h. restored-consistent e (ground (arith, p)) h))

  pub Keeps-removed :
      (p : Episode → Bool) (now : ℕ)
      → Keeps AreConsistent (update_episodes db p (removed_episode now))
  Keeps-removed p now = Keeps-update_episodes p (removed_episode now) (λ e q h. refl)

pub ruleset published_rules = (
  keeps_rules, Keeps-update_media, Keeps-write_audit, Keeps-create_row, Keeps-published,
  Keeps-restored, Keeps-removed,
)
