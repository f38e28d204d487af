-- ===== src/StdMap.antt =====
-- `std::map` as the server uses it: entries in the order of their keys. A key is compared by a
-- text, `key k`: the username for `map<user, int>` (models/user.h), itself for `map<string, Room>`.
pub mod Laws
pub mod Scan
use chat_service_socket_cpp.Common.{
  Text, text_eq, text_lt, Option, none, some, List, [], ◌∷◌, Bool, true, ◌≡◌, All, if◌then◌else◌,
}

module _ {ℓ κ} {K : Type ℓ} {V : Type κ} (key : K → Text) where
  -- `m.find(k)`; `none` is `m.end()`.
  unfoldable pub find : Text → List (K × V) → Option (K × V)
  find t [] = none
  find t ((k, v) ∷ m) = if text_eq (key k) t then some (k, v) else find t m

  -- `m.insert(pair(k, v))`: nothing happens if the key is there.
  unfoldable pub insert : K → V → List (K × V) → List (K × V)
  insert k v [] = (k, v) ∷ []
  insert k v ((j, w) ∷ m) =
      let rest = insert k v m in
      if text_eq (key j) (key k)
      then (j, w) ∷ m
      else if text_lt (key k) (key j)
      then (k, v) ∷ (j, w) ∷ m
      else (j, w) ∷ rest

  -- `m.erase(k)`
  unfoldable pub erase : Text → List (K × V) → List (K × V)
  erase t [] = []
  erase t ((k, v) ∷ m) = let rest = erase t m in if text_eq (key k) t then rest else (k, v) ∷ rest

  -- `it->second = v`, where `it` is at the key `t`.
  unfoldable pub assign : Text → V → List (K × V) → List (K × V)
  assign t v [] = []
  assign t v ((k, w) ∷ m) =
      let rest = assign t v m in if text_eq (key k) t then (k, v) ∷ rest else (k, w) ∷ rest

  abbrev pub Above : Text → K × V → Type 0
  Above t (k, v) = text_lt t (key k) ≡ true

  -- The entries are in strictly rising order, so no key stands twice.
  abbrev pub IsSorted : List (K × V) → Type 0
  IsSorted [] = Unit
  IsSorted ((k, v) ∷ m) = All (Above (key k)) m × IsSorted m

  -- The first entry whose value passes the test, and the last, as loops over the map find them.
  unfoldable pub first : (V → Bool) → List (K × V) → Option (K × V)
  first p [] = none
  first p ((k, v) ∷ m) = if p v then some (k, v) else first p m

  unfoldable pub last : (V → Bool) → List (K × V) → Option (K × V) → Option (K × V)
  last p [] found = found
  last p ((k, v) ∷ m) found = last p m (if p v then some (k, v) else found)
