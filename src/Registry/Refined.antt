-- ===== src/Registry/Refined.antt =====
-- registry.go: its methods against the map from ids to repos that they stand for.
use vedox.Base.{◌≡◌, ◌⊎◌, none, some}
use vedox.Base.Text.{Text}
use vedox.Registry.Changes.{RegistryError, write_failed}
use vedox.Registry.Locked.{JsonLaws}
use vedox.Registry.Agreement.{Call, reloads, perform, specified}
use vedox.Registry.{Json, Registry, Env, get}

module _ (json : Json) (laws : JsonLaws json) where
  -- A call whose change is in the cache, in the file too or not, and one that changed neither.
  abbrev Refined : Env → Call → Registry → Text → Type 0
  Refined env c w j =
      let r = perform json env c w in
      ((r.1 ≡ none) × (get r.0 j ≡ specified env c (get w) j))
      ⊎ (((e : RegistryError) × (r.1 ≡ some e) × (get r.0 j ≡ get w j))
          ⊎ ((c ≡ reloads) × (r.1 ≡ some write_failed) × (get r.0 j ≡ specified env c (get w) j)))
