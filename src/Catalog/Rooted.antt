-- ===== src/Catalog/Rooted.antt =====
-- What is not deleted hangs on what is not deleted: a living episode on a living season, and living
-- media on a living episode.
pub mod Removal
pub mod Cascade
pub mod Return
pub mod Bulk
pub mod Chosen
pub mod Writes
pub mod Requests
pub mod Contents
pub mod Assets
pub mod Reach
use backendurdubolonest.Base.{
  ℕ, ◌≡◌, refl, ap, Bool, true, false, not, ◌&&◌, List, [], ◌∷◌, inl, inr, arith, ◌==◌,
  if◌then◌else◌, is_none, any, Bool-cases, elem, keep, map, map_where, Among,
}
use backendurdubolonest.Schema.{Backend, Season, Episode, MediaAsset}
use backendurdubolonest.Catalog.{removed_season, removed_episode, removed_media}

abbrev pub is_season_at : ℕ → Season → Bool
is_season_at k x = x.id == k && is_none x.deleted_at

abbrev pub is_episode_at : ℕ → Episode → Bool
is_episode_at k e = e.id == k && is_none e.deleted_at

-- A living episode of no living season, and living media of no living episode.
abbrev pub is_lost_episode : List Season → Episode → Bool
is_lost_episode xs e = is_none e.deleted_at && not (any (is_season_at e.season_id) xs)

abbrev pub is_lost_media : List Episode → MediaAsset → Bool
is_lost_media es m = is_none m.deleted_at && not (any (is_episode_at m.episode_id) es)

abbrev pub IsRooted : Backend → Type 0
IsRooted s =
    (any (is_lost_episode s.seasons) s.episodes ≡ false)
    × (any (is_lost_media s.episodes) s.media_assets ≡ false)

module _ {A : Type 0} where
  pub any-weaker :
      (q r : A → Bool) (t : List A)
      → ((a : A) → Among a t → q a ≡ false → r a ≡ false)
      → any q t ≡ false
      → any r t ≡ false
  any-weaker q r [] step h = refl
  any-weaker q r (a ∷ t) step h =
      ground (arith, step a (inl refl), any-weaker q r t (λ b m. step b (inr m)))

  pub any-changed :
      (q r p : A → Bool) (f : A → A) (t : List A)
      → ((a : A) → Among a t → q a ≡ false → r (if p a then f a else a) ≡ false)
      → any q t ≡ false
      → any r (map_where p f t) ≡ false
  any-changed q r p f [] step h = refl
  any-changed q r p f (a ∷ t) step h =
      ground (arith, step a (inl refl), any-changed q r p f t (λ b m. step b (inr m)))

  pub any-kept :
      (q p : A → Bool) (f : A → A) (t : List A)
      → ((a : A) → Among a t → q a ≡ true → q (if p a then f a else a) ≡ true)
      → any q t ≡ true
      → any q (map_where p f t) ≡ true
  any-kept q p f [] step h = h
  any-kept q p f (a ∷ t) step h =
      ground (arith, step a (inl refl), any-kept q p f t (λ b m. step b (inr m)))

  -- An update that selects no row.
  pub map_where-none :
      (p : A → Bool) (f : A → A) (t : List A) → any p t ≡ false → map_where p f t ≡ t
  map_where-none p f [] h = refl
  map_where-none p f (a ∷ t) h = ground (arith, map_where-none p f t)

  pub any-never : (t : List A) → any (λ _. false) t ≡ false
  any-never [] = refl
  any-never (a ∷ t) = any-never t

  pub keep-never : (t : List A) → keep (λ _. false) t ≡ []
  keep-never [] = refl
  keep-never (a ∷ t) = keep-never t

  -- The key of a row that fits is among the keys of the rows that fit.
  pub elem-keys :
      (key : A → ℕ) (p : A → Bool) (t : List A) (a : A)
      → Among a t
      → p a ≡ true
      → elem (key a) (map key (keep p t)) ≡ true
  elem-keys key p [] a m h = elim m [ ]
  elem-keys key p (b ∷ t) a (inl same) h = ground (arith, ap p same, ap key same, h)
  elem-keys key p (b ∷ t) a (inr m) h = ground (arith, elem-keys key p t a m h)

  -- So too after an update that changes neither the key nor whether the row fits.
  pub elem-keys_changed :
      (key : A → ℕ) (q p : A → Bool) (f : A → A) (t : List A) (a : A)
      → ((b : A) → key (f b) ≡ key b)
      → ((b : A) → q (f b) ≡ q b)
      → Among a t
      → q a ≡ true
      → elem (key a) (map key (keep q (map_where p f t))) ≡ true
  elem-keys_changed key q p f [] a same fits m h = elim m [ ]
  elem-keys_changed key q p f (b ∷ t) a same fits (inl e) h =
      ground (arith, ap q e, ap key e, same b, fits b)
  elem-keys_changed key q p f (b ∷ t) a same fits (inr m) h =
      ground (arith, same b, fits b, elem-keys_changed key q p f t a same fits m h)

-- The deletion of some seasons with all their episodes.
module _ (p : Season → Bool) (q : Episode → Bool) (now : ℕ) (xs : List Season) (es : List Episode)
    (covers : (x : Season) (e : Episode)
      → Among x xs
      → Among e es
      → p x ≡ true
      → (x.id == e.season_id) ≡ true
      → is_none e.deleted_at ≡ true
      → q e ≡ true) where
  season-left :
      (e : Episode) (x : Season)
      → Among e es
      → Among x xs
      → q e ≡ false
      → is_none e.deleted_at ≡ true
      → is_season_at e.season_id x ≡ true
      → is_season_at e.season_id (if p x then removed_season now x else x) ≡ true
  season-left e x there among kept live at = elim (Bool-cases (p x)) [
    | inl gone ↦ cc (covers x e among there gone (ground (arith, at)) live)
    | inr left ↦ rw left at
  ]

  episode-left :
      (e : Episode)
      → Among e es
      → is_lost_episode xs e ≡ false
      → is_lost_episode
          (map_where p (removed_season now) xs)
          (if q e then removed_episode now e else e)
        ≡ false
  episode-left e there h = elim (Bool-cases (q e)) [
    | inl gone ↦ rw gone refl
    | inr kept ↦ elim (Bool-cases (is_none e.deleted_at)) [
      | inl live ↦ rw kept (
          ground (
            arith,
            h,
            live,
            any-kept (is_season_at e.season_id) p (removed_season now) xs
                (λ x among at. season-left e x there among kept live at),
          ))
      | inr dead ↦ rw kept (ground (arith, dead))
    ]
  ]

  pub seasons-removed :
      any (is_lost_episode xs) es ≡ false
      → any
          (is_lost_episode (map_where p (removed_season now) xs))
          (map_where q (removed_episode now) es)
        ≡ false
  seasons-removed h = any-changed _ _ q (removed_episode now) es episode-left h

-- The deletion of some episodes with all their media.
module _ (p : Episode → Bool) (q : MediaAsset → Bool) (now : ℕ) (es : List Episode)
    (ms : List MediaAsset)
    (covers : (e : Episode) (m : MediaAsset)
      → Among e es
      → p e ≡ true
      → (e.id == m.episode_id) ≡ true
      → is_none m.deleted_at ≡ true
      → q m ≡ true) where
  episode-left_at :
      (m : MediaAsset) (e : Episode)
      → Among e es
      → q m ≡ false
      → is_none m.deleted_at ≡ true
      → is_episode_at m.episode_id e ≡ true
      → is_episode_at m.episode_id (if p e then removed_episode now e else e) ≡ true
  episode-left_at m e among kept live at = elim (Bool-cases (p e)) [
    | inl gone ↦ cc (covers e m among gone (ground (arith, at)) live)
    | inr left ↦ rw left at
  ]

  media-left :
      (m : MediaAsset)
      → is_lost_media es m ≡ false
      → is_lost_media
          (map_where p (removed_episode now) es)
          (if q m then removed_media now m else m)
        ≡ false
  media-left m h = elim (Bool-cases (q m)) [
    | inl gone ↦ rw gone refl
    | inr kept ↦ elim (Bool-cases (is_none m.deleted_at)) [
      | inl live ↦ rw kept (
          ground (
            arith,
            h,
            live,
            any-kept (is_episode_at m.episode_id) p (removed_episode now) es
                (λ e among at. episode-left_at m e among kept live at),
          ))
      | inr dead ↦ rw kept (ground (arith, dead))
    ]
  ]

  pub episodes-removed :
      any (is_lost_media es) ms ≡ false
      → any
          (is_lost_media (map_where p (removed_episode now) es))
          (map_where q (removed_media now) ms)
        ≡ false
  episodes-removed h = any-changed _ _ q (removed_media now) ms (λ m there. media-left m) h
