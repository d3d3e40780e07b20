-- ===== src/Dict/Laws.antt =====
-- A map is a function of its keys, and its entries are in order.
use jn_server_cc.Base.{
  ◌≡◌, ◌≢◌, refl, true, false, [], ◌∷◌, some, Bytes, bytes_eq, bytes_eq_refl, eq_of_bytes_eq, arith,
}
use jn_server_cc.Dict.{Dict, bytes_lt, find, insert}

bytes_eq_ne : (k q : Bytes) → k ≢ q → bytes_eq q k ≡ false
bytes_eq_ne k q h = ground (arith, eq_of_bytes_eq q k)

bytes_lt_trans : (x y z : Bytes) → bytes_lt x y ≡ true → bytes_lt y z ≡ true → bytes_lt x z ≡ true
bytes_lt_trans x y [] h k = absurd (cc k)
bytes_lt_trans x [] (c ∷ z) h k = absurd (cc h)
bytes_lt_trans [] (b ∷ y) (c ∷ z) h k = refl
bytes_lt_trans (a ∷ x) (b ∷ y) (c ∷ z) h k = ground (arith, bytes_lt_trans x y z)

-- Of two keys one is less, or they are equal.
bytes_lt_total : (x y : Bytes) → bytes_eq y x ≡ false → bytes_lt x y ≡ false → bytes_lt y x ≡ true
bytes_lt_total [] [] e h = absurd (cc e)
bytes_lt_total (a ∷ x) [] e h = refl
bytes_lt_total [] (b ∷ y) e h = absurd (cc h)
bytes_lt_total (a ∷ x) (b ∷ y) e h = ground (arith, bytes_lt_total x y)

module _ {V : Type 0} where
  pub find-insert_self : (k : Bytes) (v : V) (m : Dict V) → find k (insert k v m) ≡ some v
  unfolding find insert
  find-insert_self k v [] = rw (bytes_eq_refl k) refl
  find-insert_self k v ((q, w) ∷ m) = ground (arith, find-insert_self k v m, bytes_eq_refl k)

  pub find-insert_ne : (k p : Bytes) (v : V) (m : Dict V) → p ≢ k → find p (insert k v m) ≡ find p m
  unfolding find insert
  find-insert_ne k p v [] h = rw (bytes_eq_ne p k h) refl
  find-insert_ne k p v ((q, w) ∷ m) h =
      ground (arith, find-insert_ne k p v m h, bytes_eq_ne p k h, eq_of_bytes_eq q k)

  -- Every key lies above a key.
  abbrev pub KeysAbove : Bytes → Dict V → Type 0
  KeysAbove k [] = Unit {0}
  KeysAbove k ((q, w) ∷ m) = (bytes_lt k q ≡ true) × KeysAbove k m

  -- The keys come in order, none of them twice.
  abbrev pub IsSorted : Dict V → Type 0
  IsSorted [] = Unit {0}
  IsSorted ((q, w) ∷ m) = KeysAbove q m × IsSorted m

  KeysAbove-trans : (k q : Bytes) (m : Dict V) → bytes_lt k q ≡ true → KeysAbove q m → KeysAbove k m
  KeysAbove-trans k q [] h a = tt
  KeysAbove-trans k q ((p, w) ∷ m) h a = (bytes_lt_trans k q p h a.0, KeysAbove-trans k q m h a.1)

  insert-KeysAbove :
      (p k : Bytes) (v : V) (m : Dict V)
      → bytes_lt p k ≡ true
      → KeysAbove p m
      → KeysAbove p (insert k v m)
  unfolding insert
  insert-KeysAbove p k v [] h a = (h, tt)
  insert-KeysAbove p k v ((q, w) ∷ m) h a = ground (arith, insert-KeysAbove p k v m h a.1)

  pub insert-IsSorted : (k : Bytes) (v : V) (m : Dict V) → IsSorted m → IsSorted (insert k v m)
  unfolding insert
  insert-IsSorted k v [] s = (tt, tt)
  insert-IsSorted k v ((q, w) ∷ m) s = ground (
    arith,
    insert-IsSorted k v m s.1,
    KeysAbove-trans k q m,
    bytes_lt_total k q,
    insert-KeysAbove q k v m,
  )
