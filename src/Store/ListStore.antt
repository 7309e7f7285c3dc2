-- ===== src/Store/ListStore.antt =====
-- An object store as the list of what was put, the last first: it shows that the laws asked of
-- IndexedDB can hold, and the examples run on it.
use paraphe.Common.{
  false, none, List, [], ◌∷◌, Text, text_eq, text_eq_iff, if◌then◌else◌, ◌≡◌, refl, ◌∙◌, arith,
  Bool-cases, inl, inr,
}
use paraphe.Store.ObjectStore.{ObjectStore, find_key, HasDistinctKeys}

module _ {R : Type 0} (key : R → Text) where
  without : Text → List R → List R
  without k [] = []
  without k (r ∷ rs) = if text_eq (key r) k then without k rs else r ∷ without k rs

  unfoldable pub listing : List R → List R
  unfolding without
  listing [] = []
  listing (r ∷ rs) = r ∷ without (key r) (listing rs)

  find-without_self : (k : Text) (rs : List R) → find_key key k (without k rs) ≡ none
  unfolding without
  find-without_self k [] = refl
  find-without_self k (r ∷ rs) = ground (arith, find-without_self k rs)

  find-without_ne :
      (k j : Text) (rs : List R)
      → text_eq k j ≡ false
      → find_key key j (without k rs) ≡ find_key key j rs
  unfolding without
  find-without_ne k j [] h = refl
  find-without_ne k j (r ∷ rs) h =
      ground (
        arith,
        find-without_ne k j rs,
        text_eq_iff (key r) k,
        text_eq_iff (key r) j,
        text_eq_iff k j,
      )

  without-HasDistinctKeys :
      (k : Text) (rs : List R) → HasDistinctKeys key rs → HasDistinctKeys key (without k rs)
  unfolding without
  without-HasDistinctKeys k [] h = tt
  without-HasDistinctKeys k (r ∷ rs) (new, h) = elim (Bool-cases (text_eq (key r) k)) [
    | inl e ↦ rw e (without-HasDistinctKeys k rs h)
    | inr e ↦ rw e (
      find-without_ne k (key r) rs (ground (arith, text_eq_iff k (key r), text_eq_iff (key r) k))
          ∙ new,
      without-HasDistinctKeys k rs h,
    )
  ]

  pub listing-HasDistinctKeys : (rs : List R) → HasDistinctKeys key (listing rs)
  unfolding listing
  listing-HasDistinctKeys [] = tt
  listing-HasDistinctKeys (r ∷ rs) = (
    find-without_self (key r) (listing rs),
    without-HasDistinctKeys (key r) (listing rs) (listing-HasDistinctKeys rs),
  )

  pub find-listing : (rs : List R) (k : Text) → find_key key k (listing rs) ≡ find_key key k rs
  unfolding listing
  find-listing [] k = refl
  find-listing (r ∷ rs) k =
      ground (arith, find-without_ne (key r) k (listing rs), find-listing rs k)

  abbrev pub list_store : ObjectStore R key
  list_store = record {
    State = List R;
    clear = [];
    get = λ s k. find_key key k s;
    put = λ s r. r ∷ s;
    get_all = listing;
    get-clear = λ k. refl;
    get-put = λ s r k. refl;
    find-get_all = find-listing;
    get_all-HasDistinctKeys = listing-HasDistinctKeys;
  }
