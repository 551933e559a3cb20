-- ===== src/Utils/Maps/Laws.antt =====
-- A map with a lock as a finite map.
use aom.Base.{
  Text, [], Option, none, some, ok, err, value_not_found, ◌≡◌, refl, same, if◌then◌else◌, arith,
}
use aom.Base.Dict.{Dict, lookup, insert, lookup-insert, lookup-erase}
use aom.Utils.Maps.{
  entries, find, put, remove, ConcurrentMap, load, store, delete, new_concurrent_map,
}

as_stored :
    {V : Type 0} (o : Option (Dict V)) (k gone : Text) (v : V)
    → let m : ConcurrentMap V = record { map_data = o } in
      (m' : ConcurrentMap V) × (store k v (new_concurrent_map m) ≡ ok m')
      × ((j : Text)
          → load j (delete gone m')
            ≡ (if same j gone then err value_not_found else if same j k then ok v else load j m))
unfolding store put load find entries delete remove new_concurrent_map lookup
as_stored none k gone v = (
  record { map_data = some (insert k v []) },
  refl,
  λ j. ground (arith, lookup-erase j gone (insert k v []), lookup-insert j k v []),
)
as_stored (some d) k gone v = (
  record { map_data = some (insert k v d) },
  refl,
  λ j. ground (arith, lookup-erase j gone (insert k v d), lookup-insert j k v d),
)

-- A map that `NewConcurrentMap` was called on takes every store. After the store and then the
-- delete of a key, `Load` finds nothing under the deleted key, the value under the stored one if it
-- is another, and under each other key what it found in the map as it was at first.
pub store-delete-load :
    {V : Type 0} (m : ConcurrentMap V) (k gone : Text) (v : V)
    → (m' : ConcurrentMap V) × (store k v (new_concurrent_map m) ≡ ok m')
      × ((j : Text)
          → load j (delete gone m')
            ≡ (if same j gone then err value_not_found else if same j k then ok v else load j m))
store-delete-load m k gone v = as_stored m.map_data k gone v
