-- ===== src/Structs.antt =====
-- The constants, enumerations and on-flash structs of src/flogfs_private.h and src/flogfs.h, in two
-- child modules whose names are passed on here.
mod Constants
mod Layout
pub mod RoundTrip
pub use Constants.*
unfoldable pub use Layout.*
