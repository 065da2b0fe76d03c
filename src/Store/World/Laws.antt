-- ===== src/Store/World/Laws.antt =====
-- Looking up a package directory after a removal.
use lar.Base.{
  String, ◌&&◌, none, some, List, [], ◌∷◌, ◌==◌, ◌≡◌, arith, find, filter, if◌then◌else◌, eq_iff,
  Memᴰ, find-some,
}
use lar.Store.World.{PackageDir, is_at, find_dir, without_dir}

pub find_dir-without_dir :
    (dirs : List PackageDir) (id version i v : String)
    → find_dir (without_dir dirs id version) i v
      ≡ (if id == i && version == v then none else find_dir dirs i v)
unfolding find_dir without_dir find filter
find_dir-without_dir [] id version i v = ground arith
find_dir-without_dir (d ∷ ds) id version i v = ground (
  arith,
  find_dir-without_dir ds id version i v,
  eq_iff d.id id,
  eq_iff d.id i,
  eq_iff d.version version,
  eq_iff d.version v,
  eq_iff id i,
  eq_iff version v,
)

pub find_dir-some :
    (dirs : List PackageDir) (i v : String) {d : PackageDir}
    → find_dir dirs i v ≡ some d
    → Memᴰ d dirs × (d.id ≡ i) × (d.version ≡ v)
unfolding find_dir
find_dir-some dirs i v {d} h =
    let (m, e) = find-some (is_at i v) dirs h in
    (
      m,
      ground (arith, eq_iff d.id i, eq_iff d.version v),
      ground (arith, eq_iff d.id i, eq_iff d.version v),
    )
