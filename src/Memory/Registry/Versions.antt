-- ===== src/Memory/Registry/Versions.antt =====
-- `set_latest_application_version` of src/memory.rs, and who may claim rows without a version.
use durare.Prelude.{
  ◌<ℤ◌, leb_ℤ, String, some, List, [], ◌∷◌, ◌≡◌, ◌==◌, All, string_eq, arith, Option-cases,
  Bool-cases, inl, inr,
}
use durare.Map
use durare.Map.{Map}
use durare.Host.{Host, DateTime}
use durare.Memory.{Inner, VersionInfo}
use durare.Memory.Dispatch.{latest_version, is_latest}
use durare.Memory.Registry.{get_latest_application_version, set_latest_application_version}

-- All versions are older than this instant.
abbrev pub Older : DateTime → List VersionInfo → Type 0
Older now l = All (λ v. v.version_timestamp <ℤ now) l

latest_version-Older :
    (now : DateTime) (l : List VersionInfo) {v : VersionInfo}
    → Older now l
    → latest_version l ≡ some v
    → v.version_timestamp <ℤ now
unfolding latest_version
latest_version-Older now [] o h = cc
latest_version-Older now (x ∷ l) {v} o h = elim (Option-cases (latest_version l)) [
  | inl e ↦ ground (arith, o.0)
  | inr (w, e) ↦
      let below = latest_version-Older now l {v = w} o.1 e in
      elim (Bool-cases (leb_ℤ x.version_timestamp w.version_timestamp)) [
        | inl c ↦ let same : w ≡ v = ground arith in rw (← same) below
        | inr c ↦ let same : x ≡ v = ground arith in rw (← same) o.0
      ]
]

newest-first :
    (v : VersionInfo) (l : List VersionInfo)
    → Older v.version_timestamp l
    → latest_version (v ∷ l) ≡ some v
unfolding latest_version
newest-first v l o = elim (Option-cases (latest_version l)) [
  | inl e ↦ ground arith
  | inr (w, e) ↦ ground (arith, latest_version-Older v.version_timestamp l {v = w} o e)
]

latest_version-insert :
    (name : String) (v : VersionInfo) (m : Map String VersionInfo) {old : VersionInfo}
    → Older v.version_timestamp (Map.values m)
    → Map.get name m ≡ some old
    → latest_version (Map.values (Map.insert name v m)) ≡ some v
unfolding Map.insert Map.get latest_version
latest_version-insert name v [] o h = cc
latest_version-insert name v ((i, w) ∷ m) {old} o h = elim (Bool-cases (i == name)) [
  | inl e ↦ ground (arith, newest-first v (Map.values m) o.1)
  | inr e ↦ ground (arith, latest_version-insert name v m {old = old} o.1, o.0)
]

module _ {V : Type 0} ⦃j : Host V⦄ where
  -- A registered version that is made the latest, at an instant after every other, is the latest
  -- one then, and exactly the executors of its name count as latest.
  pub set_latest_application_version-latest_version :
      (name executor : String) (now : DateTime) (g : Inner V) (v : VersionInfo)
      → Map.get name g.versions ≡ some v
      → Older now (Map.values g.versions)
      → let after = (set_latest_application_version name now g).1 in
        (get_latest_application_version after ≡ some (record v { version_timestamp = now }))
        × (is_latest executor (Map.values after.versions) ≡ (v.version_name == executor))
  unfolding set_latest_application_version get_latest_application_version is_latest
  set_latest_application_version-latest_version name executor now g v at o =
      let newest : VersionInfo = record v { version_timestamp = now } in
      let found = latest_version-insert name newest g.versions {old = v} o at in
      (ground (arith, at, found), ground (arith, at, found))
