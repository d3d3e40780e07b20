-- ===== src/Dict.antt =====
-- `std::map` with strings for keys, as the list of its entries in the order of the keys, which is
-- the order in which an iterator meets them.
pub mod Laws
use jn_server_cc.Base.{
  ℕ, ◌<◌, Bool, true, false, ltb, ◌==◌, List, [], ◌∷◌, Option, none, some, Bytes, bytes_eq,
  if◌then◌else◌,
}

abbrev pub Dict : Type 0 → Type 0
Dict V = List (Bytes × V)

-- `operator<` of two strings.
abbrev pub bytes_lt : Bytes → Bytes → Bool
bytes_lt xs [] = false
bytes_lt [] (y ∷ ys) = true
bytes_lt (x ∷ xs) (y ∷ ys) =
    let rest = bytes_lt xs ys in if ltb x y then true else if x == y then rest else false

module _ {V : Type 0} where
  unfoldable pub find : Bytes → Dict V → Option V
  find k [] = none
  find k ((q, v) ∷ m) = let rest = find k m in if bytes_eq q k then some v else rest

  -- `m[k] = v`
  unfoldable pub insert : Bytes → V → Dict V → Dict V
  insert k v [] = (k, v) ∷ []
  insert k v ((q, w) ∷ m) =
      let rest = insert k v m in
      if bytes_eq q k
      then (q, v) ∷ m
      else if bytes_lt k q
      then (k, v) ∷ ((q, w) ∷ m)
      else (q, w) ∷ rest
