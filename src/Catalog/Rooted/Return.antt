-- ===== src/Catalog/Rooted/Return.antt =====
-- A deleted drama can be asked back, and comes back alone.
use backendurdubolonest.Base.{
  ℕ, ◌≡◌, refl, sym, ap, subst, ◌∙◌, Bool, true, false, ◌&&◌, List, [], ◌∷◌, inl, inr, arith, ◌==◌,
  is_none, any, map_where, count, Bool-cases,
}
use backendurdubolonest.Prisma.{Prisma}
use backendurdubolonest.Http.{Result, ok, ◌>>=◌, transaction}
use backendurdubolonest.Http.Inversion.{bind-eq-ok, raise_if-bind-ok}
use backendurdubolonest.Schema.{Backend, Drama}
use backendurdubolonest.Audit.{write_audit}
use backendurdubolonest.Auth.{AuthenticatedPrincipal, Request}
use backendurdubolonest.Catalog.{update_dramas}
use backendurdubolonest.Catalog.Dramas
use backendurdubolonest.Catalog.Rooted.Cascade.{
  IsCleared, found, remove_rows-some, remove_rows-none, remove-IsCleared,
}

abbrev is_gone : ℕ → Drama → Bool
is_gone id d = Dramas.is_gone_drama (λ k. k == id) d

abbrev is_alive : ℕ → Drama → Bool
is_alive id d = Dramas.is_kept_drama (λ k. k == id) d

gone-of-alive :
    (id now : ℕ) (ds : List Drama)
    → (count (is_alive id) ds == 0) ≡ false
    → (count (is_gone id) (map_where (is_alive id) (Dramas.removed_drama now) ds) == 0) ≡ false
gone-of-alive id now [] h = h
gone-of-alive id now (d ∷ ds) h = ground (arith, gone-of-alive id now ds)

alive-of-gone :
    (id : ℕ) (ds : List Drama)
    → (count (is_gone id) ds == 0) ≡ false
    → any (is_alive id) (map_where (is_gone id) Dramas.restored ds) ≡ true
alive-of-gone id [] h = cc
alive-of-gone id (d ∷ ds) h = ground (arith, alive-of-gone id ds)

module _ (db : Prisma) (id : ℕ) where
  rows-gone :
      (s t : Backend) (now n : ℕ)
      → transaction (Dramas.remove_rows db id now) s ≡ (ok n, t)
      → (n == 0) ≡ false
      → (count (is_gone id) t.dramas == 0) ≡ false
  rows-gone s t now n h some_row = elim (Bool-cases (found db id s == 0)) [
    | inl e ↦
        let same = sym (remove_rows-none db id s now e) ∙ h in
        absurd (ground (arith, same, some_row))
    | inr e ↦
        subst (λ (ds : List Drama). (count (is_gone id) ds == 0) ≡ false)
          (ap (λ (v : Result ℕ × Backend). v.1.dramas) (sym (remove_rows-some db id s now e) ∙ h))
          (gone-of-alive id now s.dramas e)
  ]

  removed-gone :
      (actor : AuthenticatedPrincipal) (r : Request) (s t : Backend)
      → Dramas.remove db id actor r s ≡ (ok tt, t)
      → (count (is_gone id) t.dramas == 0) ≡ false
  unfolding Dramas.remove write_audit
  removed-gone actor r s t h =
      let (n, s1, e1, h1) = bind-eq-ok _ _ s t tt h in
      let (some_row, h2) = raise_if-bind-ok _ _ _ s1 t tt h1 in
      subst (λ (u : Backend). (count (is_gone id) u.dramas == 0) ≡ false)
        (ap (λ (v : Result (Unit {0}) × Backend). v.1) h2) (rows-gone s s1 r.now n e1 some_row)

  restore_returns :
      (actor : AuthenticatedPrincipal) (r : Request) (t : Backend)
      → IsCleared id t
      → (count (is_gone id) t.dramas == 0) ≡ false
      → (u : Backend) × (Dramas.restore db id actor r t ≡ (ok tt, u))
        × (any (is_alive id) u.dramas ≡ true)
        × IsCleared id u
  unfolding Dramas.restore update_dramas write_audit ◌>>=◌
  restore_returns actor r t cleared some_row = (
    (Dramas.restore db id actor r t).1,
    rw (db.update_many_lem (is_gone id) Dramas.restored t.dramas, some_row) refl,
    rw (db.update_many_lem (is_gone id) Dramas.restored t.dramas, some_row)
        (alive-of-gone id t.dramas some_row),
    rw (db.update_many_lem (is_gone id) Dramas.restored t.dramas, some_row) cleared,
  )

-- Once `remove` of a drama has returned, `restore` of it returns as well, whoever asks and at
-- whatever time; then the drama is not deleted, but all that is below it still is: its seasons,
-- their episodes and the media of these.
pub restore-remove :
    (db : Prisma) (id : ℕ) (actor other : AuthenticatedPrincipal) (r later : Request)
    (s t : Backend)
    → Dramas.remove db id actor r s ≡ (ok tt, t)
    → (u : Backend) × (Dramas.restore db id other later t ≡ (ok tt, u))
      × (any (λ d. d.id == id && is_none d.deleted_at) u.dramas ≡ true)
      × IsCleared id u
restore-remove db id actor other r later s t h =
    restore_returns db id other later t (remove-IsCleared db id actor r s t h)
      (removed-gone db id actor r s t h)
