-- ===== src/DynMap.antt =====
-- dynmap/dynmap.go and dynmap/typecast.go: a map from strings to values of any type.
pub mod Fields
pub mod Number
pub mod Cast
pub mod Getters
pub mod Path
pub mod Copy
pub mod Toml
pub mod Slices
pub mod Url
pub mod Merge
pub mod Tests
