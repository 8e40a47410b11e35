-- ===== src/Secrets/InMemory.antt =====
-- secrets/inmem.go: a map in memory keeps the promises of the interface.
use vedox.Base.{
  Bytes, bytes_discrete, Option, none, some, List, [], ◌∷◌, map, arith, Among, ◌≡◌, sym, inl, inr,
}
use vedox.Base.Dict.{Dict, lookup, insert, delete, lookup-insert, lookup-delete}
use vedox.Secrets.{StoreError, not_found, Read, found, failed, SecretStore, StoreLaws}

abbrev pub InMemoryStore : Type 0
InMemoryStore = Dict Bytes Bytes

abbrev pub new_in_memory_store : InMemoryStore
new_in_memory_store = []

unfoldable pub get_in_memory : InMemoryStore → Bytes → Read
get_in_memory s key = elim (lookup bytes_discrete key s) [
  | none ↦ failed not_found
  | some v ↦ found v
]

unfoldable pub put_in_memory : InMemoryStore → Bytes → Bytes → InMemoryStore × Option StoreError
put_in_memory s key value = (insert bytes_discrete key value s, none)

unfoldable pub delete_in_memory : InMemoryStore → Bytes → InMemoryStore × Option StoreError
delete_in_memory s key = elim (lookup bytes_discrete key s) [
  | none ↦ (s, some not_found)
  | some _ ↦ (delete bytes_discrete key s, none)
]

-- In the order of the map.
unfoldable pub list_in_memory : InMemoryStore → List Bytes
list_in_memory s = map (λ e. e.0) s

listed_is_found :
    (s : InMemoryStore) (k : Bytes)
    → Among k (list_in_memory s)
    → (v : Bytes) × (get_in_memory s k ≡ found v)
unfolding list_in_memory get_in_memory lookup
listed_is_found [] k h = absurd h
listed_is_found ((j, w) ∷ s) k h = elim (bytes_discrete j k) [
  | yes p ↦ (w, ground (arith, p))
  | no p ↦ elim h [
    | inl e ↦ absurd (p (sym e))
    | inr i ↦ let (v, found_it) = listed_is_found s k i in (v, ground (arith, p, found_it))
  ]
]

found_is_listed :
    (s : InMemoryStore) (k v : Bytes) → get_in_memory s k ≡ found v → Among k (list_in_memory s)
unfolding list_in_memory get_in_memory lookup
found_is_listed [] k v h = cc
found_is_listed ((j, w) ∷ s) k v h = elim (bytes_discrete j k) [
  | yes p ↦ inl (sym p)
  | no p ↦ inr (found_is_listed s k v (ground (arith, p, h)))
]

abbrev pub in_memory : SecretStore
in_memory = record {
  State = InMemoryStore;
  get = get_in_memory;
  put = put_in_memory;
  delete = delete_in_memory;
  list = λ s. some (list_in_memory s);
}

-- `InMemoryStore` is a `SecretStore`: what is put is read back, other keys are left alone, a
-- deleted key is not found, the deletion of a missing key changes nothing, and the keys listed are
-- those that are found.
pub in_memory-StoreLaws : StoreLaws in_memory
unfolding get_in_memory put_in_memory delete_in_memory
in_memory-StoreLaws = record {
  get-put_self = λ s k v h. ground (arith, lookup-insert bytes_discrete k k v s);
  get-put_ne = λ s k j v h. ground (arith, lookup-insert bytes_discrete k j v s);
  get-put_failed = λ s k v e h. ground arith;
  get-delete_self = λ s k h. ground (arith, lookup-delete bytes_discrete k k s);
  get-delete_ne = λ s k j h. ground (arith, lookup-delete bytes_discrete k j s);
  delete_absent = λ s k h. ground arith;
  delete_missing = λ s k h. ground (arith, lookup-delete bytes_discrete k k s);
  listed-get = λ s keys k h. (
    (λ i. listed_is_found s k (ground (arith, h, i))),
    (λ f. ground (arith, h, found_is_listed s k f.0 f.1)),
  );
}
