-- ===== src/Config/Merge.antt =====
-- `merge` of src/config.rs: a definition and its override as TOML tables. `V` stands for the values
-- that are no tables. A table is a list of keys with their values; inserting at a key that is there
-- replaces its value.
pub mod Lookup
use climate.Common.{Text, text_eq, if◌then◌else◌, Option, none, some, Bool, true, false}

mutual
  pub data Value (V : Type 0) : Type 0 where
    plain : V → Value V
    table : Table V → Value V

  pub data Table (V : Type 0) : Type 0 where
    nil : Table V
    entry : Text → Value V → Table V → Table V

unfoldable pub get : {V : Type 0} → Text → Table V → Option (Value V)
get key nil = none
get key (entry k v rest) = let later = get key rest in if text_eq k key then some v else later

unfoldable pub insert : {V : Type 0} → Text → Value V → Table V → Table V
insert key value nil = entry key value nil
insert key value (entry k v rest) =
    let later = insert key value rest in
    if text_eq k key then entry k value rest else entry k v later

unfoldable mutual
  -- The table with the entries of another one merged into it, in their order.
  pub merge : {V : Type 0} → Table V → Table V → Table V
  merge base nil = base
  merge base (entry key value rest) = merge (insert key (combine (get key base) value) base) rest

  -- What a key gets: two tables are merged, any other value replaces the one below it.
  pub combine : {V : Type 0} → Option (Value V) → Value V → Value V
  combine (some (table below)) (table above) = table (merge below above)
  combine (some (plain v)) (table above) = table above
  combine none (table above) = table above
  combine below (plain v) = plain v
