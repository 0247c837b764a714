-- ===== src/Core/Value.antt =====
-- crates/lemnos-core/src/value.rs: dynamic values. A float is the bit pattern of the
-- representative of its class under the equality of `OrderedFloat`.
use lemnos.Prelude.{
  Bool, List, Option, Ordering, Text, compare_text, decide, if◌then◌else◌, none, same, some,
  text_ord, ℕ, ℕ_discrete, ℤ,
}
use lemnos.Core.Interface.{interface_ord}

mutual
  pub data Value : Type 0 where
    null : Value
    bool : Bool → Value
    i64 : ℤ → Value
    u64 : ℕ → Value
    f64 : ℕ → Value
    string : Text → Value
    bytes : List ℕ → Value
    list : Values → Value
    map_of : ValueMap → Value

  pub data Values : Type 0 where
    nil : Values
    cons : Value → Values → Values

  -- A `BTreeMap<String, Value>` in the order of its keys.
  pub data ValueMap : Type 0 where
    empty : ValueMap
    entry : Text → Value → ValueMap → ValueMap

-- `ValueMap::get`.
unfoldable pub get_value : Text → ValueMap → Option Value
get_value k ValueMap.empty = none
get_value k (ValueMap.entry j v m) = if same k j then some v else get_value k m

-- `ValueMap::insert`.
unfoldable pub set_value : Text → Value → ValueMap → ValueMap
set_value k v ValueMap.empty = ValueMap.entry k v ValueMap.empty
set_value k v (ValueMap.entry j w m) = elim (compare_text k j) [
  | Ordering.lt ↦ ValueMap.entry k v (ValueMap.entry j w m)
  | Ordering.eq ↦ ValueMap.entry k v m
  | Ordering.gt ↦ ValueMap.entry j w (set_value k v m)
]

unfoldable pub Value-discrete : Discrete Value
unfolding ℕ_discrete
Value-discrete = hlevel ℕ_discrete

unfoldable pub ValueMap-discrete : Discrete ValueMap
unfolding ℕ_discrete
ValueMap-discrete = hlevel ℕ_discrete

-- `==` on values, as derived.
unfoldable pub same_value : Value → Value → Bool
unfolding Value-discrete decide
same_value a b = decide (Value-discrete a b)
