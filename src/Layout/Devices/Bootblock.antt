-- ===== src/Layout/Devices/Bootblock.antt =====
-- Structures of targets/m68k-amigaos/ndk/include_h/devices/bootblock.h and of include_i/devices/bootblock.i beside it.
use amiga_dev.Common.{some, List, [], ◌∷◌}
use amiga_dev.Layout.{Fields, array, int32, int8}
use amiga_dev.Layout.Asm.{Directive, field, label, long, num, struct, structure}
use amiga_dev.Layout.Agree.{Entry, in_order}

-- `struct BootBlock`
abbrev pub boot_block_fields : Fields
boot_block_fields = ("bb_id", array 4 int8) ∷ ("bb_chksum", int32) ∷ ("bb_dosblock", int32) ∷ []

-- `STRUCTURE BB`
abbrev pub boot_block_source : List Directive
boot_block_source =
    structure "BB" (num 0)
    ∷ struct "BB_ID" (num 4)
    ∷ field long "BB_CHKSUM"
    ∷ field long "BB_DOSBLOCK"
    ∷ label "BB_ENTRY"
    ∷ label "BB_SIZE"
    ∷ []

-- The structures of this file, with the symbol of each field and of the size.
abbrev pub bootblock_entries : List Entry
bootblock_entries = in_order boot_block_fields boot_block_source (some "BB_SIZE") ∷ []
