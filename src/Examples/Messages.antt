-- ===== src/Examples/Messages.antt =====
-- The theorem on the fatal messages of src/mock_allocator.c, with a descriptor that takes 20 bytes.
use libc_override.Base.{length, ltb, if◌then◌else◌}
use libc_override.Mock.Messages.{Write, refused, took}

-- the first two calls take ten bytes each, and the third fails
abbrev write : Write
write calls rest =
    if ltb calls 2 then took (if ltb (length rest) 10 then length rest else 10) else refused
