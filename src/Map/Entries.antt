-- ===== src/Map/Entries.antt =====
-- Maps over any ordered type of keys, with the laws of lookup.
use Prim.Native.Nat.{Ordering}
use Prim.Native.String.{compare}
use sandboard.Prelude.Text.{str_eq}
use sandboard.Prelude.{
  String, eq_iff, ℕ, ◌≡◌, ◌↔◌, ◌⊎◌, refl, Bool, true, false, Option, none, some, List, [], ◌∷◌,
  arith, ltb, ◌==◌, ==_iff, if◌then◌else◌, is_some,
}

-- What a key type must have: `Eq` and the order in which a map keeps its entries.
pub record Key (K : Type 0) : Type 0 where
  pub beq : K → K → Bool
  pub before : K → K → Bool
  pub beq_iff : (a b : K) → (beq a b ≡ true) ↔ (a ≡ b)

instance abbrev pub nat_key : Key ℕ
nat_key = record { beq = ◌==◌; before = ltb; beq_iff = ==_iff }

abbrev less : Ordering → Bool
less Ordering.lt = true
less _ = false

-- Texts in the order of their characters, which is that of their UTF-8 bytes.
instance abbrev pub string_key : Key String
string_key = record { beq = str_eq; before = λ a b. less (compare a b); beq_iff = eq_iff }

abbrev pub Map : Type 0 → Type 0 → Type 0
Map K V = List (K × V)

module _ {K V : Type 0} where
  abbrev pub empty : Map K V
  empty = []

  -- `values()`
  unfoldable pub values : Map K V → List V
  values [] = []
  values ((_, v) ∷ m) = v ∷ values m

  -- `keys()`
  unfoldable pub keys : Map K V → List K
  keys [] = []
  keys ((k, _) ∷ m) = k ∷ keys m

module _ {K V : Type 0} ⦃o : Key K⦄ where
  -- `get(&k)`
  unfoldable pub get : Map K V → K → Option V
  get [] k = none
  get ((j, v) ∷ m) k = let rest = get m k in if o.beq j k then some v else rest

  -- `contains_key(&k)`
  unfoldable pub contains_key : Map K V → K → Bool
  unfolding get
  contains_key m k = is_some (get m k)

  -- `insert(k, v)`
  unfoldable pub insert : Map K V → K → V → Map K V
  insert [] k v = (k, v) ∷ []
  insert ((j, w) ∷ m) k v =
      let rest = insert m k v in
      if o.beq j k then (k, v) ∷ m else if o.before k j then (k, v) ∷ (j, w) ∷ m else (j, w) ∷ rest

  -- `remove(&k)`
  unfoldable pub remove : Map K V → K → Map K V
  remove [] k = []
  remove ((j, w) ∷ m) k = let rest = remove m k in if o.beq j k then rest else (j, w) ∷ rest

  pub get-empty : (k : K) → get (empty {V = V}) k ≡ none
  unfolding get
  get-empty k = refl

  pub get-insert :
      (m : Map K V) (k j : K) (v : V)
      → get (insert m k v) j ≡ (if o.beq k j then some v else get m j)
  unfolding get insert
  get-insert [] k j v = refl
  get-insert ((i, w) ∷ m) k j v =
      ground (arith, o.beq_iff i k, o.beq_iff i j, o.beq_iff k j, get-insert m k j v)

  pub get-remove :
      (m : Map K V) (k j : K) → get (remove m k) j ≡ (if o.beq k j then none else get m j)
  unfolding get remove
  get-remove [] k j = ground arith
  get-remove ((i, w) ∷ m) k j =
      ground (arith, o.beq_iff i k, o.beq_iff i j, o.beq_iff k j, get-remove m k j)

  -- What stands in a map after an insertion is the new value, or was there before.
  pub get-insert_cases :
      (m : Map K V) (k j : K) (v w : V)
      → get (insert m k v) j ≡ some w
      → ((k ≡ j) × (v ≡ w)) ⊎ (get m j ≡ some w)
  get-insert_cases m k j v w h = ground (arith, get-insert m k j v, o.beq_iff k j)

pub ruleset map_laws = (get-empty, get-insert, get-remove)
