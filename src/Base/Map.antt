-- ===== src/Base/Map.antt =====
-- The maps that the program takes from libraries (`HashMap`, `DashMap`, and `DashSet`, which is a
-- map to the unit) behind their documented laws. Association lists meet them.
mod Defs
mod Assoc
pub use Defs.{MapApi}
unfoldable pub use Assoc.{assoc_map, text_map}
