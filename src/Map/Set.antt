-- ===== src/Map/Set.antt =====
-- `BTreeSet<K>`: its elements in order.
use sandboard.Prelude.{
  ◌≡◌, refl, Bool, false, true, ◌&&◌, ◌||◌, not, List, [], ◌∷◌, arith, if◌then◌else◌, is_empty,
}
use sandboard.Map.Entries.{Key}

abbrev pub Set : Type 0 → Type 0
Set K = List K

module _ {K : Type 0} ⦃o : Key K⦄ where
  -- `contains(&k)`
  unfoldable pub contains : Set K → K → Bool
  contains [] k = false
  contains (j ∷ s) k = o.beq j k || contains s k

  -- `insert(k)`
  unfoldable pub insert : Set K → K → Set K
  insert [] k = k ∷ []
  insert (j ∷ s) k =
      let rest = insert s k in
      if o.beq j k then j ∷ s else if o.before k j then k ∷ j ∷ s else j ∷ rest

  -- `remove(&k)`
  unfoldable pub remove : Set K → K → Set K
  remove [] k = []
  remove (j ∷ s) k = let rest = remove s k in if o.beq j k then rest else j ∷ rest

  pub contains-insert :
      (s : Set K) (k j : K) → contains (insert s k) j ≡ (o.beq k j || contains s j)
  unfolding contains insert
  contains-insert [] k j = ground arith
  contains-insert (i ∷ s) k j =
      ground (arith, o.beq_iff i k, o.beq_iff i j, o.beq_iff k j, contains-insert s k j)

  pub contains-remove :
      (s : Set K) (k j : K) → contains (remove s k) j ≡ (not (o.beq k j) && contains s j)
  unfolding contains remove
  contains-remove [] k j = ground arith
  contains-remove (i ∷ s) k j =
      ground (arith, o.beq_iff i k, o.beq_iff i j, o.beq_iff k j, contains-remove s k j)

  -- An empty set contains nothing, so that dropping an empty set loses no element.
  pub contains_of_is_empty : (s : Set K) (k : K) → is_empty s ≡ true → contains s k ≡ false
  unfolding contains
  contains_of_is_empty [] k h = refl
  contains_of_is_empty (j ∷ s) k h = ground arith

pub ruleset set_laws = (contains-insert, contains-remove)
