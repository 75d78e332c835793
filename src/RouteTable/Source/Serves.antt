-- ===== src/RouteTable/Source/Serves.antt =====
-- What the source of routetable/filesource.go serves while it runs and after a restart.
use tsjwt.Prelude.{
  Bool-cases, Text, ℤ, pos, ◌≡◌, refl, ap, ◌⊎◌, inl, inr, Bool, true, false, Option, none, List, [],
  ◌∷◌, map, sym, ◌∙◌, subst,
}
use tsjwt.Errors.{Result, err, ok, >>=-eq-ok, ok-injective}
use tsjwt.RouteTable.{RouteFile, Url, read_route_file, parse}
use tsjwt.RouteTable.Source.{
  FileSource, same_routes, took, note_error, loaded_cache, load_cache, refresh, round, run,
}
use tsjwt.RouteTable.Source.Tracks.{bare, same_routes_iff}
use tsjwt.Routing.{Route}

-- A process that starts again: the cache file alone is left.
abbrev pub restarted : FileSource → FileSource
restarted s = record s {
  current = [];
  revision = pos 0;
  loaded = false;
  from_cache = false;
  last_err = none;
}

module _ (parse_url : Text → Option Url) where
  -- The table and the revision that a source holds after a read: those of the file, or those held before.
  abbrev pub newer : List Route × ℤ → Result (RouteFile × List Route) → List Route × ℤ
  newer held (err e) = held
  newer held (ok (f, routes)) = (map bare routes, f.revision)

  pub last_read : List Route × ℤ → List (Bool × Result RouteFile) → List Route × ℤ
  last_read held [] = held
  last_read held ((written, decoded) ∷ reads) =
      last_read (newer held (read_route_file parse_url decoded)) reads

  -- The cache file holds the table in use, but for claim headers, or the table in use is empty.
  abbrev pub IsBacked : FileSource → Type 0
  IsBacked s =
      (map bare s.current ≡ [])
      ⊎ ((f : RouteFile) × (routes : List Route) × (read_route_file parse_url s.cached
            ≡ ok (f, routes))
          × (map bare s.current ≡ map bare routes))

  -- Each write of the cache file succeeded.
  abbrev pub AllWritten : List (Bool × Result RouteFile) → Type 0
  AllWritten [] = Unit
  AllWritten ((written, decoded) ∷ reads) = (written ≡ true) × AllWritten reads

  -- A file that was read reads back from the cache.
  reread :
      (decoded : Result RouteFile) (f : RouteFile) (routes : List Route)
      → read_route_file parse_url decoded ≡ ok (f, routes)
      → read_route_file parse_url (ok f) ≡ ok (f, routes)
  unfolding read_route_file
  reread (err e) f routes read = absurd (cc read)
  reread (ok g) f routes read =
      let (rs, parsed, made) = >>=-eq-ok (parse parse_url g) _ read in
      let same : g ≡ f = ap (λ (a : RouteFile × List Route). a.0) (ok-injective made) in
      subst (λ (x : RouteFile). read_route_file parse_url (ok x) ≡ ok (f, routes)) same read

  -- What a read of Run leaves.
  abbrev Leaves : FileSource → Result (RouteFile × List Route) → FileSource → Type 0
  Leaves s r t =
      ((map bare t.current, t.revision) ≡ newer (map bare s.current, s.revision) r)
      × (t.has_cache ≡ true)
      × IsBacked t

  took-Leaves :
      (s : FileSource) (decoded : Result RouteFile) (r : Result (RouteFile × List Route))
      → read_route_file parse_url decoded ≡ r
      → s.has_cache ≡ true
      → IsBacked s
      → Leaves s r (note_error parse_url (took parse_url s true r).0 (took parse_url s true r).1)
  unfolding took note_error
  took-Leaves s decoded (err e) read cached backed = (refl, cached, backed)
  took-Leaves s decoded (ok (f, routes)) read cached backed =
      elim (Bool-cases (same_routes s.current routes)) [
        | inl same ↦
            let agree = (same_routes_iff s.current routes).0 same in
            rw same (ap (λ (l : List Route). (l, f.revision)) agree, cached, backed)
        | inr changed ↦
            rw (changed, cached) (refl, refl, inr (f, routes, reread decoded f routes read, refl))
      ]

  run-Leaves :
      (reads : List (Bool × Result RouteFile)) (s : FileSource)
      → AllWritten reads
      → s.has_cache ≡ true
      → IsBacked s
      → ((map bare (run parse_url s reads).current, (run parse_url s reads).revision)
          ≡ last_read (map bare s.current, s.revision) reads)
        × ((run parse_url s reads).has_cache ≡ true)
        × IsBacked (run parse_url s reads)
  unfolding run round refresh last_read
  run-Leaves [] s w cached backed = (refl, cached, backed)
  run-Leaves ((true, decoded) ∷ reads) s w cached backed =
      let (held, cached', backed') =
        took-Leaves s decoded (read_route_file parse_url decoded) refl cached backed in
      let (follows, cached_on, backed_on) =
        run-Leaves reads (round parse_url s true decoded) w.1 cached' backed' in
      (follows ∙ ap (λ (h : List Route × ℤ). last_read h reads) held, cached_on, backed_on)
  run-Leaves ((false, decoded) ∷ reads) s w cached backed = absurd (cc (w.0))

  restart-Restores :
      (s : FileSource)
      → s.has_cache ≡ true
      → IsBacked s
      → (map bare s.current ≡ [])
        ⊎ (map bare (load_cache parse_url (restarted s)).1.current ≡ map bare s.current)
  unfolding load_cache loaded_cache
  restart-Restores s cached (inl empty) = inl empty
  restart-Restores s cached (inr (f, routes, held, same)) = inr (rw (cached, held) (sym same))

  -- With a cache file that can be written, and that holds the table in use or the table is empty, a source that
  -- runs holds the table and the revision of the last file that it could read, but for claim headers, or what
  -- it held before. If the process then starts again and cannot read the file, it serves that table from the
  -- cache, unless the table was empty.
  pub run-Serves :
      (s : FileSource) (reads : List (Bool × Result RouteFile))
      → AllWritten reads
      → s.has_cache ≡ true
      → IsBacked s
      → ((map bare (run parse_url s reads).current, (run parse_url s reads).revision)
          ≡ last_read (map bare s.current, s.revision) reads)
        × ((map bare (run parse_url s reads).current ≡ [])
            ⊎ (map bare (load_cache parse_url (restarted (run parse_url s reads))).1.current
                ≡ map bare (run parse_url s reads).current))
  run-Serves s reads w cached backed =
      let (follows, cached', backed') = run-Leaves reads s w cached backed in
      (follows, restart-Restores (run parse_url s reads) cached' backed')
