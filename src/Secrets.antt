-- ===== src/Secrets.antt =====
-- secrets/secrets.go and inmem.go: the interface of the secret backends, and the one in memory.
pub mod InMemory
use vedox.Base.{Bytes, Option, none, some, List, Among, ◌≡◌, ◌≢◌, ◌↔◌}

-- The errors that the callers tell apart: `*secrets.ErrNotFound`, go-keyring's `ErrNotFound`, and
-- every other failure.
pub data StoreError : Type 0 where
  not_found keyring_not_found unavailable : StoreError

pub data Read : Type 0 where
  found : Bytes → Read
  failed : StoreError → Read

-- `SecretStore`. A change returns the new state, and `none` for the nil error; a `List` that fails
-- is `none`. The values are bytes, so that what a caller does to its copy changes no state.
pub record SecretStore : Type 1 where
  pub State : Type 0
  pub get : State → Bytes → Read
  pub put : State → Bytes → Bytes → State × Option StoreError
  pub delete : State → Bytes → State × Option StoreError
  pub list : State → Option (List Bytes)

-- What the comments of the interface promise. `List` shows the keys that `Get` finds.
pub record StoreLaws (st : SecretStore) : Type 0 where
  pub get-put_self :
      (s : st.State) (k v : Bytes) → (st.put s k v).1 ≡ none → st.get (st.put s k v).0 k ≡ found v
  pub get-put_ne : (s : st.State) (k j v : Bytes) → k ≢ j → st.get (st.put s k v).0 j ≡ st.get s j
  pub get-put_failed :
      (s : st.State) (k v : Bytes) (e : StoreError)
      → (st.put s k v).1 ≡ some e
      → (st.put s k v).0 ≡ s
  pub get-delete_self :
      (s : st.State) (k : Bytes)
      → (st.delete s k).1 ≡ none
      → st.get (st.delete s k).0 k ≡ failed not_found
  pub get-delete_ne : (s : st.State) (k j : Bytes) → k ≢ j → st.get (st.delete s k).0 j ≡ st.get s j
  pub delete_absent :
      (s : st.State) (k : Bytes)
      → st.get s k ≡ failed not_found
      → st.delete s k ≡ (s, some not_found)
  pub delete_missing :
      (s : st.State) (k : Bytes)
      → (st.delete s k).1 ≡ some not_found
      → st.get (st.delete s k).0 k ≡ failed not_found
  pub listed-get :
      (s : st.State) (keys : List Bytes) (k : Bytes)
      → st.list s ≡ some keys
      → Among k keys ↔ ((v : Bytes) × (st.get s k ≡ found v))
