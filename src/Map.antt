-- ===== src/Map.antt =====
-- `BTreeMap<K, V>` and `HashMap<K, V>`: a list of entries in the order of the keys, of which every
-- key has one. A set is a map to the unit type's value.
mod Entries
pub mod Set
pub mod Index
pub use Entries.{Key, Map, nat_key, string_key}
unfoldable pub use Entries.{empty, get, contains_key, insert, remove, values, keys}
pub use Entries.{get-empty, get-insert, get-remove, get-insert_cases, map_laws}
