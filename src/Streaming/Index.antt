-- ===== src/Streaming/Index.antt =====
-- packages/transports/src/neemata/ws/streams.ts: the maps of `BlobStreamsManager`. A map is a
-- function from its keys; a `Set<number>` of an index is the list of its members. Connections are
-- numbered, and the key `connection:stream` is the pair of the two.
use neemata.Common.{
  ℕ, ◌≡◌, refl, Bool, true, false, not, ◌&&◌, ◌||◌, Option, none, some, List, [], ◌∷◌, arith, ◌==◌,
  Bool-cases, inl, inr, if◌then◌else◌,
}

abbrev pub Key : Type 0
Key = ℕ × ℕ

abbrev pub key_eq : Key → Key → Bool
key_eq a b = a.0 == b.0 && a.1 == b.1

-- A map's `set` and `delete`.
abbrev pub put : {V : Type 0} → Key → Option V → (Key → Option V) → Key → Option V
put k v m j = if key_eq j k then v else m j

abbrev pub Index : Type 0
Index = Key → Option (List ℕ)

abbrev pub member : ℕ → List ℕ → Bool
member x [] = false
member x (y ∷ ys) = x == y || member x ys

abbrev pub add : ℕ → List ℕ → List ℕ
add x ys = if member x ys then ys else x ∷ ys

abbrev pub delete : ℕ → List ℕ → List ℕ
delete x [] = []
delete x (y ∷ ys) = let rest = delete x ys in if x == y then rest else y ∷ rest

abbrev pub ids : Option (List ℕ) → List ℕ
ids none = []
ids (some l) = l

abbrev pub nonempty : List ℕ → Option (List ℕ)
nonempty [] = none
nonempty (x ∷ xs) = some (x ∷ xs)

abbrev pub without : ℕ → Option (List ℕ) → Option (List ℕ)
without id none = none
without id (some l) = nonempty (delete id l)

-- `trackClientCall` and its three kin: the set is made on its first member.
pub track : Key → ℕ → Index → Index
track k id index = put k (some (add id (ids (index k)))) index

-- `untrackClientCall` and its three kin: a set that becomes empty is removed.
pub untrack : Key → ℕ → Index → Index
untrack k id index = put k (without id (index k)) index

pub tracks : Index → Key → ℕ → Bool
tracks index k id = member id (ids (index k))

member-delete : (x y : ℕ) (l : List ℕ) → member x (delete y l) ≡ (not (x == y) && member x l)
member-delete x y [] = ground arith
member-delete x y (z ∷ l) = ground (arith, member-delete x y l)

member-add : (x y : ℕ) (l : List ℕ) → member x (add y l) ≡ (x == y || member x l)
member-add x y l = ground arith

ids-nonempty : (l : List ℕ) → ids (nonempty l) ≡ l
ids-nonempty [] = refl
ids-nonempty (x ∷ l) = refl

ids-without : (x : ℕ) (o : Option (List ℕ)) → ids (without x o) ≡ delete x (ids o)
ids-without x none = refl
ids-without x (some l) = ids-nonempty (delete x l)

pub key_eq→eq : (j k : Key) → key_eq j k ≡ true → j ≡ k
key_eq→eq j k h = ground arith

pub key_eq_refl : (k : Key) → key_eq k k ≡ true
key_eq_refl k = ground arith

pub tracks-track :
    (k j : Key) (id x : ℕ) (index : Index)
    → tracks (track k id index) j x ≡ ((key_eq j k && x == id) || tracks index j x)
unfolding tracks track
tracks-track k j id x index = elim (Bool-cases (key_eq j k)) [
  | inl e ↦ rw (key_eq→eq j k e, key_eq_refl k) (member-add x id (ids (index k)))
  | inr e ↦ rw e
]

pub tracks-untrack :
    (k j : Key) (id x : ℕ) (index : Index)
    → tracks (untrack k id index) j x ≡ (not (key_eq j k && x == id) && tracks index j x)
unfolding tracks untrack
tracks-untrack k j id x index = elim (Bool-cases (key_eq j k)) [
  | inl e ↦
      rw (key_eq→eq j k e, key_eq_refl k, ids-without id (index k))
        (member-delete x id (ids (index k)))
  | inr e ↦ rw e
]

pub tracks-none : (k : Key) (id : ℕ) → tracks (λ j. none) k id ≡ false
unfolding tracks
tracks-none k id = refl

pub member-ids : (index : Index) (k : Key) (id : ℕ) → member id (ids (index k)) ≡ tracks index k id
unfolding tracks
member-ids index k id = refl
