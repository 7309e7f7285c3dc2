-- ===== src/Store/ObjectStore.antt =====
-- What web/src/db.ts relies on of an object store of IndexedDB with a key path: a parameter of the
-- model, with the documented behaviour of `get`, `put`, `clear` and `getAll` as laws. An operation
-- inside one read-write transaction is one function on the state of the store.
use paraphe.Common.{
  true, Option, none, some, List, [], ◌∷◌, Text, text_eq, text_eq_iff, if◌then◌else◌, ◌≡◌, ◌∙◌,
  refl, arith,
}

-- The first record with the key.
abbrev pub find_key {ℓ} : {R : Type ℓ} → (R → Text) → Text → List R → Option R
find_key key k [] = none
find_key key k (r ∷ rs) = if text_eq (key r) k then some r else find_key key k rs

-- The last record with the key.
abbrev pub find_last {ℓ} : {R : Type ℓ} → (R → Text) → Text → List R → Option R
find_last key k [] = none
find_last key k (r ∷ rs) = elim (find_last key k rs) [
  | some x ↦ some x
  | none ↦ if text_eq (key r) k then some r else none
]

-- No two records have the same key.
abbrev pub HasDistinctKeys : {R : Type 0} → (R → Text) → List R → Type 0
HasDistinctKeys key [] = Unit {0}
HasDistinctKeys key (r ∷ rs) = (find_key key (key r) rs ≡ none) × HasDistinctKeys key rs

pub record ObjectStore (R : Type 0) (key : R → Text) : Type 1 where
  pub State : Type 0
  pub clear : State
  pub get : State → Text → Option R
  pub put : State → R → State
  pub get_all : State → List R
  pub get-clear : (k : Text) → get clear k ≡ none
  pub get-put :
      (s : State) (r : R) (k : Text)
      → get (put s r) k ≡ (if text_eq (key r) k then some r else get s k)
  pub find-get_all : (s : State) (k : Text) → find_key key k (get_all s) ≡ get s k
  pub get_all-HasDistinctKeys : (s : State) → HasDistinctKeys key (get_all s)

module _ {R : Type 0} (key : R → Text) where
  find_last-absent : (k : Text) (rs : List R) → find_key key k rs ≡ none → find_last key k rs ≡ none
  find_last-absent k [] h = refl
  find_last-absent k (r ∷ rs) h = ground (arith, find_last-absent k rs)

  pub find_last-find_key :
      (k : Text) (rs : List R) → HasDistinctKeys key rs → find_last key k rs ≡ find_key key k rs
  find_last-find_key k [] h = refl
  find_last-find_key k (r ∷ rs) (new, h) =
      ground (arith, text_eq_iff (key r) k, find_last-find_key k rs h, find_last-absent k rs)

module _ {R : Type 0} (key : R → Text) where
  key_of_find :
      (k : Text) (rs : List R) (r : R) → find_key key k rs ≡ some r → text_eq (key r) k ≡ true
  key_of_find k [] r e = cc
  key_of_find k (r' ∷ rs) r e = ground (arith, key_of_find k rs r)

module _ {R : Type 0} {key : R → Text} (store : ObjectStore R key) where
  open store use {State, get, put, get-put, get_all, find-get_all}

  -- A record is stored under its own key.
  pub key_of_get : (s : State) (k : Text) (r : R) → get s k ≡ some r → text_eq (key r) k ≡ true
  key_of_get s k r e = key_of_find key k (get_all s) r (find-get_all s k ∙ e)

  -- `for (const r of rows) s.put(r)`
  unfoldable pub put_all : State → List R → State
  put_all s [] = s
  put_all s (r ∷ rs) = put_all (put s r) rs

  -- What was put last under a key is what is read.
  pub get-put_all :
      (s : State) (rs : List R) (k : Text)
      → get (put_all s rs) k ≡ elim (find_last key k rs) [ some r ↦ some r | none ↦ get s k ]
  unfolding put_all
  get-put_all s [] k = refl
  get-put_all s (r ∷ rs) k = ground (arith, get-put_all (put s r) rs k, get-put s r k)
