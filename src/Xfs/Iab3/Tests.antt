-- ===== src/Xfs/Iab3/Tests.antt =====
-- A chunk of three dinodes, the second of which is free.
use xallib.Prelude.{◌+◌, ◌==◌, if◌then◌else◌}
use xallib.Bytes.{Buf}
use xallib.Xfs.Iab3.{InobtRec}

abbrev test_rec : InobtRec
test_rec = record { startino = 0; holemask = 0; count = 3; freecount = 1; free = 2 }

-- The inode numbers 64 and 66 at byte 152 of their dinodes
abbrev test_chunk : Buf
test_chunk o = if o == 159 then 64 else if o == 1024 + 159 then 66 else 0
