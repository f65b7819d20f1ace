-- ===== src/FileTable/Tests.antt =====
-- A table of descriptors, and the theorem at it.
use os_zhenxiang.Prelude.{ℕ, Option, none, some, ltb, if◌then◌else◌}

-- 3 and 4 are taken.
abbrev table : ℕ → Option ℕ
table i = if ltb i 5 then some i else none
