-- ===== src/Map/Index.antt =====
-- A map from keys to sets of ids that holds no empty set: the shape of the board's two indexes.
use sandboard.Prelude.{
  ℕ, ◌≡◌, ◌&&◌, ◌||◌, not, Option, none, some, [], arith, ◌==◌, Option-cases, inl, inr,
  if◌then◌else◌, is_empty,
}
use sandboard.Map.Entries.{Key, nat_key, Map, get, insert, remove, get-insert, get-remove}
use sandboard.Map.Set
use sandboard.Map.Set.{Set, contains, contains-insert, contains-remove, contains_of_is_empty}

abbrev or_default : Option (Set ℕ) → Set ℕ
or_default none = []
or_default (some s) = s

module _ {K : Type 0} ⦃o : Key K⦄ where
  -- `get(&k)`, with the empty set for a missing key
  unfoldable pub members : Map K (Set ℕ) → K → Set ℕ
  members m k = or_default (get m k)

  -- `entry(k).or_default().insert(id)`
  unfoldable pub link : Map K (Set ℕ) → K → ℕ → Map K (Set ℕ)
  unfolding members
  link m k id = insert m k (Set.insert (members m k) id)

  -- Write a set back, and drop the key of an empty one.
  put_back : Map K (Set ℕ) → K → Set ℕ → Map K (Set ℕ)
  put_back m k s = if is_empty s then remove m k else insert m k s

  -- `if let Some(set) = get_mut(&k) { set.remove(&id); if set.is_empty() { remove(&k) } }`
  unfoldable pub unlink : Map K (Set ℕ) → K → ℕ → Map K (Set ℕ)
  unfolding put_back
  unlink m k id = elim (get m k) [ none ↦ m | some s ↦ put_back m k (Set.remove s id) ]

  pub contains-members-link :
      (m : Map K (Set ℕ)) (k j : K) (id c : ℕ)
      → contains (members (link m k id) j) c ≡ (o.beq k j && id == c || contains (members m j) c)
  unfolding members link
  contains-members-link m k j id c =
      rw get-insert (ground (arith, o.beq_iff k j, contains-insert (members m k) id c))

  put_back_lem :
      (m : Map K (Set ℕ)) (k j : K) (s : Set ℕ) (c : ℕ)
      → contains (members (put_back m k s) j) c
        ≡ (if o.beq k j then contains s c else contains (members m j) c)
  unfolding put_back members contains
  put_back_lem m k j s c =
      ground (arith, o.beq_iff k j, get-insert m k j s, get-remove m k j, contains_of_is_empty s c)

  pub contains-members-unlink :
      (m : Map K (Set ℕ)) (k j : K) (id c : ℕ)
      → contains (members (unlink m k id) j) c
        ≡ (not (o.beq k j && id == c) && contains (members m j) c)
  unfolding members unlink contains
  contains-members-unlink m k j id c = elim (Option-cases (get m k)) [
    | inl e ↦ ground (arith, e, o.beq_iff k j)
    | inr (s, e) ↦
        ground
          (arith, e, o.beq_iff k j, contains-remove s id c, put_back_lem m k j (Set.remove s id) c)
  ]
