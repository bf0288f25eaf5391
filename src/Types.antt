-- ===== src/Types.antt =====
-- internal/licensecore/types.go: the records of the license server. A pointer field is an `Option`,
-- a `map[string]any` an `Option` of entries (a nil map is `none`), and an `int` a signed integer.
pub mod Dynamic
pub mod Catalog
pub mod Events
pub mod Client
pub use Dynamic.{
  Value, Values, Fields, null, boolean, integer, number, text, texts, array, object, nil, cons, end,
  field, Time, is_zero, after, second,
}
unfoldable pub use Dynamic.{unix}
pub use Catalog.*
pub use Events.*
pub use Client.*
