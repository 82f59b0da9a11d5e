-- ===== src/Config/Merge/Lookup.antt =====
-- What a merged table holds at each key.
use climate.Common.{
  Text, text_eq, text_eq_iff, if◌then◌else◌, Bool-cases, inl, inr, Option, none, some, Bool, true,
  false, ◌≡◌, refl, ◌⊎◌, ap, sym, ◌∙◌,
}
use climate.Config.Merge.{plain, table, Value, Table, nil, entry, get, insert, merge, combine}

-- No key stands twice, as in every TOML table.
abbrev pub IsTable : {V : Type 0} → Table V → Type 0
IsTable nil = Unit
IsTable (entry k v rest) = (get k rest ≡ none) × IsTable rest

-- The value of a key from the one below it and the override's, if there are any.
abbrev pub overlay : {V : Type 0} → Option (Value V) → Option (Value V) → Option (Value V)
overlay below none = below
overlay (some (table below)) (some (table above)) = some (table (merge below above))
overlay (some (plain v)) (some (table above)) = some (table above)
overlay none (some (table above)) = some (table above)
overlay below (some (plain v)) = some (plain v)

combine-overlay :
    {V : Type 0} (below : Option (Value V)) (above : Value V)
    → some (combine below above) ≡ overlay below (some above)
unfolding merge
combine-overlay none (table above) = refl
combine-overlay (some (plain v)) (table above) = refl
combine-overlay (some (table below)) (table above) = refl
combine-overlay none (plain v) = refl
combine-overlay (some (plain w)) (plain v) = refl
combine-overlay (some (table below)) (plain v) = refl

module _ {V : Type 0} where
  get-insert :
      (key k : Text) (v : Value V) (t : Table V)
      → get key (insert k v t) ≡ (if text_eq k key then some v else get key t)
  unfolding get insert
  get-insert key k v nil = refl
  get-insert key k v (entry k' v' rest) = elim (Bool-cases (text_eq k' k)) [
    | inl same ↦
        let e : k' ≡ k = (text_eq_iff k' k).0 same in
        rw same (rw (ap (λ t. text_eq t key) e) (by_test (text_eq k key)))
    | inr other ↦
        rw other (rw (get-insert key k v rest) (separate (Bool-cases (text_eq k key)) other))
  ]
    where
      by_test :
          (b : Bool)
          → (if b then some v else get key rest)
            ≡ (if b then some v else (if b then some v' else get key rest))
      by_test true = refl
      by_test false = refl

      separate :
          (text_eq k key ≡ true) ⊎ (text_eq k key ≡ false)
          → text_eq k' k ≡ false
          → (if text_eq k' key then some v' else (if text_eq k key then some v else get key rest))
            ≡ (if text_eq k key then some v else (if text_eq k' key then some v' else get key rest))
      separate (inr differs) other = rw differs refl
      separate (inl is) other =
          let e : k ≡ key = (text_eq_iff k key).0 is in
          let other' : text_eq k' key ≡ false = ap (text_eq k') (sym e) ∙ other in
          rw (is, other') refl

  -- At each key a merged table holds what the override says, merged with the table below it where both
  -- are tables; a key that the override does not state keeps its value.
  pub get-merge :
      (base over : Table V) (key : Text)
      → IsTable over
      → get key (merge base over) ≡ overlay (get key base) (get key over)
  unfolding get merge
  get-merge base nil key h = refl
  get-merge base (entry k v rest) key h =
      get-merge (insert k (combine (get k base) v) base) rest key h.1
      ∙ rw (get-insert key k (combine (get k base) v) base) (elim (Bool-cases (text_eq k key)) [
        | inl same ↦
            let e : k ≡ key = (text_eq_iff k key).0 same in
            let absent : get key rest ≡ none = ap (λ t. get t rest) (sym e) ∙ h.0 in
            rw (same, absent)
              (ap (λ t. some (combine (get t base) v)) e ∙ combine-overlay (get key base) v)
        | inr other ↦ rw other refl
      ])
