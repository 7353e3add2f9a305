-- ===== src/Algos/Sets/Laws.antt =====
-- What the maps of sets hold.
use flowsketch.Base.Bytes.{bytes_eq, bytes_eq_iff, eq_of_bytes_eq, bytes_eq_symm}
use flowsketch.Base.{
  ℕ, List, [], ◌∷◌, Bool, true, false, ◌||◌, ◌&&◌, if◌then◌else◌, ◌≡◌, refl, ◌∙◌, arith, Bool-cases,
  inl, inr,
}
use flowsketch.Algos.Sets.{Items, Sets, has, add_item, add_items, items_of, entry_items, unite}

abbrev pub NoRepeat : Items → Type 0
NoRepeat [] = Unit
NoRepeat (i ∷ is) = (has i is ≡ false) × NoRepeat is

has-add_item :
    (i item : List ℕ) (is : Items) → has i (add_item item is) ≡ (bytes_eq item i || has i is)
unfolding has add_item
has-add_item i item [] = refl
has-add_item i item (j ∷ js) =
    ground
      (arith, has-add_item i item js, bytes_eq_iff j item, bytes_eq_iff j i, bytes_eq_iff item i)

pub has-add_items :
    (i : List ℕ) (items is : Items) → has i (add_items items is) ≡ (has i items || has i is)
unfolding has add_items
has-add_items i [] is = refl
has-add_items i (item ∷ items) is =
    ground (arith, has-add_items i items (add_item item is), has-add_item i item is)

add_item-NoRepeat : (item : List ℕ) (is : Items) → NoRepeat is → NoRepeat (add_item item is)
unfolding add_item has
add_item-NoRepeat item [] h = (refl, tt)
add_item-NoRepeat item (j ∷ js) (hj, h) = elim (Bool-cases (bytes_eq j item)) [
  | inl e ↦ rw e (hj, h)
  | inr e ↦
      rw e
        (ground (arith, has-add_item j item js, bytes_eq_symm item j), add_item-NoRepeat item js h)
]

pub add_items-NoRepeat : (items is : Items) → NoRepeat is → NoRepeat (add_items items is)
unfolding add_items
add_items-NoRepeat [] is h = h
add_items-NoRepeat (item ∷ items) is h =
    add_items-NoRepeat items (add_item item is) (add_item-NoRepeat item is h)

pub items_of-entry_items :
    (key k : List ℕ) (items : Items) (m : Sets)
    → items_of key (entry_items k items m)
      ≡ (if bytes_eq k key then add_items items (items_of key m) else items_of key m)
unfolding items_of entry_items
items_of-entry_items key k items [] = refl
items_of-entry_items key k items ((k', is) ∷ rest) = ground (
  arith,
  items_of-entry_items key k items rest,
  bytes_eq_iff k' k,
  bytes_eq_iff k' key,
  bytes_eq_iff k key,
)

-- No entry for the key.
abbrev pub absent : List ℕ → Sets → Bool
absent key [] = true
absent key ((k, is) ∷ rest) = if bytes_eq k key then false else absent key rest

-- One entry for a key, of a set without repetition.
abbrev pub IsSets : Sets → Type 0
IsSets [] = Unit
IsSets ((k, is) ∷ rest) = (absent k rest ≡ true) × (NoRepeat is × IsSets rest)

absent-entry_items :
    (key k : List ℕ) (items : Items) (m : Sets)
    → absent key m ≡ true
    → bytes_eq k key ≡ false
    → absent key (entry_items k items m) ≡ true
unfolding entry_items
absent-entry_items key k items [] h ne = ground arith
absent-entry_items key k items ((j, is) ∷ rest) h ne =
    ground (arith, absent-entry_items key k items rest)

pub entry_items-IsSets :
    (k : List ℕ) (items : Items) (m : Sets) → IsSets m → IsSets (entry_items k items m)
unfolding entry_items
entry_items-IsSets k items [] h = (refl, (add_items-NoRepeat items [] tt, tt))
entry_items-IsSets k items ((j, is) ∷ rest) (a, (n, h)) = elim (Bool-cases (bytes_eq j k)) [
  | inl e ↦ rw e (a, (add_items-NoRepeat items is n, h))
  | inr e ↦ rw e (
    absent-entry_items j k items rest a (bytes_eq_symm k j ∙ e),
    (n, entry_items-IsSets k items rest h),
  )
]

items_of-absent : (key : List ℕ) (m : Sets) → absent key m ≡ true → items_of key m ≡ []
unfolding items_of
items_of-absent key [] h = refl
items_of-absent key ((k, is) ∷ rest) h = elim (Bool-cases (bytes_eq k key)) [
  | inl e ↦ ground arith
  | inr e ↦ rw e (items_of-absent key rest (rw e at h))
]

pub items_of-NoRepeat : (key : List ℕ) (m : Sets) → IsSets m → NoRepeat (items_of key m)
unfolding items_of
items_of-NoRepeat key [] h = tt
items_of-NoRepeat key ((k, is) ∷ rest) (a, (n, h)) = elim (Bool-cases (bytes_eq k key)) [
  | inl e ↦ rw e n
  | inr e ↦ rw e (items_of-NoRepeat key rest h)
]

pub has-entry_items :
    (key k i : List ℕ) (items : Items) (m : Sets)
    → has i (items_of key (entry_items k items m))
      ≡ ((bytes_eq k key && has i items) || has i (items_of key m))
has-entry_items key k i items m = elim (Bool-cases (bytes_eq k key)) [
  | inl e ↦ rw (items_of-entry_items key k items m, e) (has-add_items i items (items_of key m))
  | inr e ↦ rw (items_of-entry_items key k items m, e)
]

or_false : (b : Bool) → b ≡ (b || false)
or_false true = refl
or_false false = refl

has-cons :
    (key k i : List ℕ) (is : Items) (rest : Sets)
    → absent k rest ≡ true
    → has i (items_of key ((k, is) ∷ rest))
      ≡ ((bytes_eq k key && has i is) || has i (items_of key rest))
unfolding items_of has
has-cons key k i is rest a = elim (Bool-cases (bytes_eq k key)) [
  | inl e ↦ rw (e, ← eq_of_bytes_eq k key e, items_of-absent k rest a) (or_false (has i is))
  | inr e ↦ rw e
]

-- A union holds the items of both.
pub has-unite :
    (key i : List ℕ) (m others : Sets)
    → IsSets others
    → has i (items_of key (unite m others))
      ≡ (has i (items_of key m) || has i (items_of key others))
unfolding unite items_of has
has-unite key i m [] h = or_false (has i (items_of key m))
has-unite key i m ((k, is) ∷ others) (a, (n, h)) = ground (
  arith,
  has-unite key i (entry_items k is m) others h,
  has-entry_items key k i is m,
  has-cons key k i is others a,
)

pub unite-IsSets : (m others : Sets) → IsSets m → IsSets (unite m others)
unfolding unite
unite-IsSets m [] h = h
unite-IsSets m ((k, is) ∷ others) h =
    unite-IsSets (entry_items k is m) others (entry_items-IsSets k is m h)
