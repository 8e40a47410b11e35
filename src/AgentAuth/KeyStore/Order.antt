-- ===== src/AgentAuth/KeyStore/Order.antt =====
-- agentauth.go: an API key, and the insertion sort of `ListKeys` and `writeLocked`.
pub mod Sorted
use vedox.Base.{ℕ, Bytes, Bool, ltb, if◌then◌else◌, List, [], ◌∷◌}
use mathlib.Core.List.{reverse}

pub record ApiKey : Type 0 where
  pub id : Bytes
  pub name : Bytes
  pub project : Bytes
  pub path_prefix : Bytes
  pub created_at : ℕ
  pub revoked : Bool

-- The inner loop: `x` is exchanged with its left neighbours while they are later. The sorted part
-- of the slice is given from its right end.
unfoldable pub sink : ApiKey → List ApiKey → List ApiKey
sink x [] = x ∷ []
sink x (p ∷ done) =
    let rest = sink x done in if ltb x.created_at p.created_at then p ∷ rest else x ∷ p ∷ done

-- The outer loop.
unfoldable pub sort_from : List ApiKey → List ApiKey → List ApiKey
sort_from done [] = done
sort_from done (x ∷ rest) = sort_from (sink x done) rest

unfoldable pub sort_by_created : List ApiKey → List ApiKey
sort_by_created keys = reverse (sort_from [] keys)
