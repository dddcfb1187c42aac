-- ===== src/Catalog/Episodes/Steps.antt =====
-- Every method that changes episodes keeps their flags and statuses in agreement.
use backendurdubolonest.Base.{
  ℕ, ◌≤◌, ◌≡◌, refl, ap, Bool, true, false, not, ◌&&◌, Option, none, some, List, [], ◌∷◌, arith,
  ◌==◌, is_none, is_some, any, count, map_where, Among, Option-cases, inl, inr,
}
use backendurdubolonest.Prisma.{Prisma}
use backendurdubolonest.Http.{◌>>=◌, ◌>>◌, rethrow}
use backendurdubolonest.Http.Keeps.{
  Keeps, Leads, Leads-bind, Keeps-Leads, Leads-trans, Leads-rethrow, Keeps-pure, Keeps-gets,
  Keeps-raise_if, keeps_rules,
}
use backendurdubolonest.Schema.{Backend, Episode, AuditEvent}
use backendurdubolonest.Audit.{write_audit}
use backendurdubolonest.Auth.{AuthenticatedPrincipal, Request}
use backendurdubolonest.Catalog.{update_episodes}
use backendurdubolonest.Catalog.Episodes.{
  CreateEpisodeDto, UpdateEpisodeDto, BulkAction, with_changes, changed_status, update_row,
  ensure_season, ensure_new_season, find_active, update, number_in_use, create, restore, publish,
  remove_rows, remove, bulk_rows, bulk,
}
use backendurdubolonest.Catalog.Episodes.Published.{
  is_consistent, AreConsistent, Keeps-write_audit, Keeps-published, Keeps-restored, published_rules,
}

-- The identifier is a primary key.
abbrev pub IsKey : ℕ → Backend → Type 0
IsKey id s = count (λ e. e.id == id) s.episodes ≤ 1

-- No episode with this identifier is deleted.
abbrev IsKept : ℕ → Backend → Type 0
IsKept id s = AreConsistent s × (any (λ e. e.id == id && is_some e.deleted_at) s.episodes ≡ false)

key-none :
    (id : ℕ) (es : List Episode)
    → count (λ e. e.id == id) es ≤ 0
    → any (λ e. e.id == id && is_some e.deleted_at) es ≡ false
key-none id [] h = refl
key-none id (e ∷ es) h = ground (arith, key-none id es)

key-some :
    (id : ℕ) (a : Episode) (es : List Episode)
    → Among a es
    → (a.id == id) ≡ true
    → 1 ≤ count (λ e. e.id == id) es
key-some id a [] m e = elim m [ ]
key-some id a (x ∷ xs) (inl same) e = ground (arith, ap (λ (y : Episode). y.id) same, e)
key-some id a (x ∷ xs) (inr m) e = ground (arith, key-some id a xs m e)

-- The only episode with an identifier is the one that is found.
key-kept :
    (id : ℕ) (a : Episode) (es : List Episode)
    → count (λ e. e.id == id) es ≤ 1
    → Among a es
    → (a.id == id) ≡ true
    → is_none a.deleted_at ≡ true
    → any (λ e. e.id == id && is_some e.deleted_at) es ≡ false
key-kept id a [] one m e live = refl
key-kept id a (x ∷ xs) one (inl same) e live = ground (
  arith,
  ap (λ (y : Episode). y.id) same,
  ap (λ (y : Episode). y.deleted_at) same,
  key-none id xs,
  e,
  live,
)
key-kept id a (x ∷ xs) one (inr m) e live =
    ground (arith, key-kept id a xs, key-some id a xs m e, e, live)

with_changes-consistent :
    (dto : UpdateEpisodeDto) (e : Episode)
    → is_none e.deleted_at ≡ true
    → is_consistent e ≡ true
    → is_consistent (with_changes dto e) ≡ true
with_changes-consistent dto e live h = elim (Option-cases (changed_status dto)) [
  | inl none_set ↦ ground (arith, none_set, live, h)
  | inr (status, set) ↦ ground (arith, set, live)
]

-- Changes to living episodes, which leave the other ones alone.
changed_kept :
    (id : ℕ) (f : Episode → Episode) (es : List Episode)
    → ((e : Episode)
        → is_none e.deleted_at ≡ true
        → is_consistent e ≡ true
        → is_consistent (f e) ≡ true)
    → any (λ e. e.id == id && is_some e.deleted_at) es ≡ false
    → any (λ e. not (is_consistent e)) es ≡ false
    → any (λ e. not (is_consistent e)) (map_where (λ e. e.id == id) f es) ≡ false
changed_kept id f [] step kept h = refl
changed_kept id f (e ∷ es) step kept h = ground (arith, step e, changed_kept id f es step)

module _ (db : Prisma) where
  update_episodes-Leads :
      (id : ℕ) (dto : UpdateEpisodeDto)
      → Leads (IsKept id) AreConsistent (update_episodes db (λ e. e.id == id) (with_changes dto))
  unfolding update_episodes ◌>>=◌
  update_episodes-Leads id dto = record {
    at = λ s (h, kept).
        rw (db.update_many_lem (λ e. e.id == id) (with_changes dto) s.episodes)
          (changed_kept id (with_changes dto) s.episodes (with_changes-consistent dto) kept h);
  }

  update_row-Leads :
      (id : ℕ) (dto : UpdateEpisodeDto)
      → Leads (IsKept id) AreConsistent (update_row db id (with_changes dto))
  unfolding update_row
  update_row-Leads id dto =
      Leads-trans (IsKept id) (IsKept id) AreConsistent _ _ (λ s k. k.0)
        (Keeps-Leads _ (search keeps_rules depth 10))
        (λ row.
          Leads-trans (IsKept id) (IsKept id) AreConsistent _ _ (λ s k. k.0)
            (Keeps-Leads _ (Keeps-gets _))
            (λ taken.
              Leads-trans (IsKept id) (IsKept id) AreConsistent _ _ (λ s k. k.0)
                (Keeps-Leads _ (Keeps-raise_if _ _))
                (λ _. Leads-bind _ _ _ _ (update_episodes-Leads id dto) (λ _. Keeps-pure tt))))

  ensure_new_season-Leads :
      (id : ℕ) (season : Option ℕ) → Leads (IsKept id) (IsKept id) (ensure_new_season db season)
  unfolding ensure_season ◌>>=◌
  ensure_new_season-Leads id none = record { at = λ s h. h }
  ensure_new_season-Leads id (some season) = record { at = λ s h. h }

  changes-Leads :
      (id : ℕ) (dto : UpdateEpisodeDto) (input : AuditEvent)
      → Leads (IsKept id) AreConsistent (
          ensure_new_season db dto.season_id
          >> rethrow number_in_use (update_row db id (with_changes dto) >> write_audit db input))
  changes-Leads id dto input =
      Leads-trans (IsKept id) (IsKept id) AreConsistent _ _ (λ s k. k.0)
        (ensure_new_season-Leads id dto.season_id)
        (λ _.
          Leads-rethrow _ _ _ _
            (Leads-bind _ _ _ _ (update_row-Leads id dto) (λ _. Keeps-write_audit db input)))

  active-kept :
      (id : ℕ) (a : Episode) (s : Backend)
      → find_active db id s ≡ some a
      → IsKey id s
      → any (λ e. e.id == id && is_some e.deleted_at) s.episodes ≡ false
  unfolding find_active
  active-kept id a s h one =
      let (there, fits) = db.find_first_some _ _ a h in
      key-kept id a s.episodes one there (ground (arith, fits)) (ground (arith, fits))

  pub update-Leads :
      (id : ℕ) (dto : UpdateEpisodeDto) (actor : AuthenticatedPrincipal) (r : Request)
      → Leads (λ s. AreConsistent s × IsKey id s) AreConsistent (update db id dto actor r)
  unfolding update ◌>>=◌
  update-Leads id dto actor r = record {
    at = λ s (h, one). elim (Option-cases (find_active db id s)) [
      | inl e ↦ rw e h
      | inr (a, e) ↦ rw e ((changes-Leads id dto _).at s (h, active-kept id a s e one))
    ];
  }

  pub Keeps-create :
      (dto : CreateEpisodeDto) (id : ℕ) (actor : AuthenticatedPrincipal) (r : Request)
      → Keeps AreConsistent (create db dto id actor r)
  unfolding create ensure_season
  Keeps-create dto id actor r = search published_rules depth 30

  pub Keeps-remove :
      (id : ℕ) (actor : AuthenticatedPrincipal) (r : Request)
      → Keeps AreConsistent (remove db id actor r)
  unfolding remove remove_rows
  Keeps-remove id actor r = search published_rules depth 30

  pub Keeps-restore :
      (id : ℕ) (actor : AuthenticatedPrincipal) (r : Request)
      → Keeps AreConsistent (restore db id actor r)
  unfolding restore
  Keeps-restore id actor r = search published_rules depth 20

  pub Keeps-publish :
      (id : ℕ) (b : Bool) (actor : AuthenticatedPrincipal) (r : Request)
      → Keeps AreConsistent (publish db id b actor r)
  unfolding publish
  Keeps-publish id b actor r = search published_rules depth 20

  Keeps-bulk_rows :
      (action : BulkAction) (ids : List ℕ) (now : ℕ)
      → Keeps AreConsistent (bulk_rows db action ids now)
  unfolding bulk_rows
  Keeps-bulk_rows BulkAction.bulk_publish ids now = Keeps-published db _ true
  Keeps-bulk_rows BulkAction.bulk_unpublish ids now = Keeps-published db _ false
  Keeps-bulk_rows BulkAction.bulk_restore ids now = Keeps-restored db _
  Keeps-bulk_rows BulkAction.bulk_delete ids now = search published_rules depth 20

  pub Keeps-bulk :
      (action : BulkAction) (ids : List ℕ) (actor : AuthenticatedPrincipal) (r : Request)
      → Keeps AreConsistent (bulk db action ids actor r)
  unfolding bulk
  Keeps-bulk action ids actor r = search (published_rules, Keeps-bulk_rows) depth 20
