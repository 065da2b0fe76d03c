-- ===== src/Manager/Root/Laws.antt =====
-- Finding the root of an application leaves the installs as they are.
use lar.Base.{
  String, Option, none, some, List, [], ◌∷◌, ◌≡◌, refl, Result-cases, inl, inr, map_err, filter,
}
use lar.Repo.Trust.{Crypto}
use lar.Repo.Advisories.{Digest}
use lar.Repo.Fetch.{Network}
use lar.Repo.Fetch.Into.{fetch_into_store}
use lar.Store.World.{StoredPackage, World}
use lar.Store.Change.{add}
use lar.Store.Read.{get}
use lar.Store.Read as Read
use lar.Manager.Source.{InstallSource, archive, store}
use lar.Manager.Home.{Home, store_fault, world, with_world}
use lar.Manager.Action.{Action}
use lar.Manager.Action.Keeps.{Keeps}
use lar.Manager.Parts.{Parts}
use lar.Manager.Root.{
  ensure_root, lookup_version, lookup_store_root, choose_stored, choose_found, store_hit,
  apps_versions_for, has_id,
}

module _ (crypto : Crypto) (digest : Digest) (net : Network) {Desk : Type 0}
    (parts : Parts Desk) where
  abbrev KeepsInstalls : Action Desk StoredPackage → Type 1
  KeepsInstalls m =
      (C : Type 0) (part : Home Desk → C)
      → ((h : Home Desk) (w : World) → part (with_world h w) ≡ part h)
      → Keeps part m

  abbrev fetched : Home Desk → String → String → World
  fetched h id version =
      (fetch_into_store crypto digest net (world h) h.sources_toml h.trust_toml id version).1

  lookup_version-Keeps :
      (id version : String) → KeepsInstalls (lookup_version crypto digest net parts id version)
  unfolding lookup_version
  lookup_version-Keeps id version C part same h =
      elim (Result-cases (map_err store_fault (get h.dirs id version))) [
        | inr (e, q) ↦ rw (lookup_version, q) refl
        | inl (none, q) ↦ rw (lookup_version, q) (same h (fetched h id version))
        | inl (some p, q) ↦ rw (lookup_version, q) refl
      ]

  choose_found-Keeps :
      (id : String) (vs : List String) → KeepsInstalls (choose_found crypto digest net parts id vs)
  unfolding choose_found
  choose_found-Keeps id [] C part same h = refl
  choose_found-Keeps id (v ∷ []) C part same h = lookup_version-Keeps id v C part same h
  choose_found-Keeps id (v ∷ w ∷ vs) C part same h = refl

  choose_stored-Keeps :
      (id : String) (ps : List StoredPackage)
      → KeepsInstalls (choose_stored crypto digest net parts id ps)
  unfolding choose_stored store_hit
  choose_stored-Keeps id [] C part same h =
      elim (Result-cases (apps_versions_for crypto digest net h.sources_toml id)) [
        | inr (e, q) ↦ rw (choose_stored, q) refl
        | inl (vs, q) ↦ rw (choose_stored, q) (choose_found-Keeps id vs C part same h)
      ]
  choose_stored-Keeps id (p ∷ []) C part same h = refl
  choose_stored-Keeps id (p ∷ q ∷ ps) C part same h = refl

  lookup_store_root-Keeps :
      (id : String) (version : Option String)
      → KeepsInstalls (lookup_store_root crypto digest net parts id version)
  unfolding lookup_store_root
  lookup_store_root-Keeps id (some version) C part same h =
      lookup_version-Keeps id version C part same h
  lookup_store_root-Keeps id none C part same h =
      elim (Result-cases (map_err store_fault (Read.list h.dirs))) [
        | inr (e, q) ↦ rw (lookup_store_root, q) refl
        | inl (ps, q) ↦
            rw (lookup_store_root, q) (choose_stored-Keeps id (filter (has_id id) ps) C part same h)
      ]

  -- What the operations of the store leave alone, `ensure_root` leaves alone.
  pub ensure_root-Keeps :
      (source : InstallSource) → KeepsInstalls (ensure_root crypto digest net parts source)
  unfolding ensure_root
  ensure_root-Keeps (archive path) C part same h =
      same h (add (world h) (parts.archive_at path).extracted).1
  ensure_root-Keeps (store id version) C part same h =
      lookup_store_root-Keeps id version C part same h
