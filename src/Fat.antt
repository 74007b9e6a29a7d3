-- ===== src/Fat.antt =====
-- The FAT file system of src/fs/fat: the conversions of names (name.c), short and long names (name.c),
-- the entries that hold long names (entry.c), and the entries of the table (cluster.c).
pub mod Utf
pub mod Name
pub mod LongEntry
pub mod Cluster
