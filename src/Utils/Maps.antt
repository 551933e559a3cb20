-- ===== src/Utils/Maps.antt =====
-- utils/concurrent_map.go and utils/map.go: maps that are nil until they are made. A read of a nil
-- map finds nothing, a delete does nothing, and a write panics. Each method holds the lock for the
-- whole of its body, so that it is one step.
pub mod Laws
use aom.Base.{
  Text, List, [], ◌∷◌, Option, none, some, Error, Result, ok, err, panic, value_not_found,
}
use aom.Base.Dict.{Dict, lookup, insert, erase}

module _ {V : Type 0} where
  -- The entries of a map, none of a nil map.
  unfoldable pub entries : Option (Dict V) → Dict V
  entries none = []
  entries (some d) = d

  -- `val, ok := m.Data[key]` with the error if there is none.
  unfoldable pub find : Text → Option (Dict V) → Result V
  unfolding entries
  find key entry_map = elim (lookup key (entries entry_map)) [
    | none ↦ err value_not_found
    | some val ↦ ok val
  ]

  -- `m.Data[key] = val`
  unfoldable pub put : Text → V → Option (Dict V) → Result (Option (Dict V))
  put key val none = panic
  put key val (some d) = ok (some (insert key val d))

  -- `delete(m.Data, key)`
  unfoldable pub remove : Text → Option (Dict V) → Option (Dict V)
  remove key none = none
  remove key (some d) = some (erase key d)

pub record ConcurrentMap (V : Type 0) : Type 0 where
  pub map_data : Option (Dict V)

module _ {V : Type 0} where
  unfoldable pub load : Text → ConcurrentMap V → Result V
  unfolding find
  load key m = find key m.map_data

  -- The errors of the calls, in the order of the range over the entries.
  unfoldable pub range_errors : (Text → V → Option Error) → Dict V → List Error
  range_errors do_one [] = []
  range_errors do_one ((k, v) ∷ d) =
      let rest = range_errors do_one d in elim (do_one k v) [ none ↦ rest | some e ↦ e ∷ rest ]

  -- `Range`, in an order of the entries.
  unfoldable pub range :
      (Dict V → Dict V) → (Text → V → Option Error) → ConcurrentMap V → List Error
  unfolding range_errors entries
  range order do_one m = range_errors do_one (order (entries m.map_data))

  unfoldable pub store : Text → V → ConcurrentMap V → Result (ConcurrentMap V)
  unfolding put
  store key val m = elim (put key val m.map_data) [
    | panic ↦ panic
    | err e ↦ err e
    | ok made ↦ ok (record { map_data = made })
  ]

  unfoldable pub delete : Text → ConcurrentMap V → ConcurrentMap V
  unfolding remove
  delete key m = record { map_data = remove key m.map_data }

  -- The method `NewConcurrentMap`, which makes a nil map and leaves another as it is.
  unfoldable pub new_concurrent_map : ConcurrentMap V → ConcurrentMap V
  new_concurrent_map m = elim m.map_data [ none ↦ record { map_data = some [] } | some d ↦ m ]

-- `Map`, without a lock.
pub record Map (V : Type 0) : Type 0 where
  pub map_data : Option (Dict V)

module _ {V : Type 0} where
  -- `New` empties a map that was made already.
  unfoldable pub new : Map V → Map V
  new m = record { map_data = some [] }

  unfoldable pub get : Text → Map V → Result V
  unfolding find
  get key m = find key m.map_data

  unfoldable pub erase_key : Text → Map V → Map V
  unfolding remove
  erase_key key m = record { map_data = remove key m.map_data }

  unfoldable pub set : Text → V → Map V → Result (Map V)
  unfolding put
  set key value m = elim (put key value m.map_data) [
    | panic ↦ panic
    | err e ↦ err e
    | ok made ↦ ok (record { map_data = made })
  ]
