-- ===== src/Lib.antt =====
-- LAR, a Linux application runtime: packages of files with a manifest, a side-by-side store of them,
-- a resolver that locks dependencies, and signed sources to fetch them from.
--
-- The parts and the files that model them:
--   Package     crates/lar-package/src/{id,manifest,error}.rs: package ids (`Id`), the data of
--               `package.toml` (`Manifest`), payload paths (`Manifest/Path`), `[platform]` tables
--               (`Manifest/Platform`) and `validate_manifest` (`Manifest/Validate`).
--   Store       crates/lar-store/src/{store,install_pins,error}.rs: the directories and install
--               records (`World`), `install_referrers` (`Pins`), `get`, `list` and `referrers`
--               (`Read`), `add`, `remove` and `cascade_remove` (`Change`).
--   Resolver    crates/lar-resolver/src/{lockfile,verify,resolve,error}.rs: lockfiles (`Locked`),
--               `Lockfile::validate` and `verify_lockfile_inner` (`Lock`), `deps_to_constraints`
--               and below (`Requirement`), `detect_dependency_cycle` (`Cycle`), `LarProvider`
--               (`Provider`), `resolve_manifest` and `materialize` (`Resolve`).
--   Repo        crates/lar-repo/src/{sources,trust,index,advisories,fetch}.rs, and versions.rs,
--               audit.rs and error.rs there: `sources.toml` (`Sources`), trusted keys (`Trust`),
--               the signed index (`Index`), advisories (`Advisories`), `locate_verified_pin`
--               (`Fetch`), `fetch_into_store` (`Fetch/Into`), `load_package_for_resolve`
--               (`Fetch/Peek`), with the reads of transport.rs; `list_dep_versions` and
--               `list_yanked_dep_versions` (`Versions`), `audit` (`Audit`).
--   Manager     crates/lar-manager/src/{ops,record,platform,error}.rs: the directories, install
--               records and runtimes (`Home`), `InstallRecord::validate` (`Record`),
--               `InstallSource::parse` (`Source`), `load` and `list` (`Installs`, `Replace`),
--               `replace_install` (`Replace`), `ensure_root` (`Root`), `compose_install` (`Compose`),
--               `packages_from_lock` (`Pins`), the check of the host (`Host`), and `install`,
--               `update`, `rollback`, `uninstall` and `launch` (`Ops`).
--   Runtime     crates/lar-runtime/src/{compose,build}.rs: the ways to compose a runtime (`Compose`),
--               and `compose_files` with `link_tree` (`Build`).
--   Platform    crates/lar-platform/src/check.rs: the needs of packages and the check of the host
--               against them, with the probes of probe.rs as a parameter.
--   Semver      the crate `semver` as the other parts call it: a parameter.
--   Base        lists, texts as code points, maps as association lists, results, and their lemmas.
--
-- How they interact: a fetch locates a pin in a source, checks it against the trusted keys and the
-- advisories, and adds the archive to the store by the store's own `add`; the store reads manifests
-- as `load_manifest` yields them; the provider lists the versions of the store and of the sources,
-- the solver selects from them, and the selected packages are fetched into the store; the manager
-- installs what the resolver locks and keeps its packages pinned; the files of a runtime are those
-- of the stored packages of a lockfile; the lockfile is verified against the directories of the
-- store; the ranges of `Requirement` are those of the library `pubgrub`, a record of operations
-- whose documented laws are named hypotheses.
--
-- State is passed explicitly: an operation of the store takes the `World` and returns its result
-- and the `World` after it, also where it fails; an operation on sources takes the value of
-- `sources.toml` and returns the one that it writes; an operation of the manager takes the `Home`
-- and the parts that it calls and does not contain (`Manager/Parts`): `resolve_manifest`, the building
-- of runtimes, exports, desktop entries, and the started process. The caches of `LarProvider` are a
-- record that its operations pass on. Messages of errors are kept as the values in
-- them. Results of serde, of `extract` and of the parsers of `semver` are inputs;
-- so are base64, Ed25519, BLAKE3 and what HTTP delivers (`Crypto`, `Digest`, `Network`).
--
-- Bounds and fuel: `dfs` gets one call more than the index of packages has keys, and
-- `cascade_remove` one more than the store has directories; each nested call opens a key that was
-- not open, so that the fuel does not run out, as is proved. The numbers of versions are `u64` and
-- `n + 1` wraps, as in a release build.
--
-- Not modelled: packing and extracting archives, HTTP, publishing, the solver `pubgrub`, the ids,
-- the reuse and the verifying of runtimes, exports and desktop entries, the trampoline and the
-- command line; they are input and output, libraries, or still to come. Reads and writes of the
-- file system are taken to succeed.
pub mod Base
pub mod Repo
pub mod Runtime
pub mod Manager
pub mod Store
pub mod Resolver
pub mod Semver
pub mod Package
pub mod Platform
