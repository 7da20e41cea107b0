-- ===== src/Layout/Exec/Record.antt =====
-- Structures of targets/m68k-amigaos/ndk/include_h/dos/record.h and of include_i/dos/record.i beside it.
use amiga_dev.Common.{some, List, [], ◌∷◌}
use amiga_dev.Layout.{Fields, int32}
use amiga_dev.Layout.Asm.{Directive, bptr, field, label, num, structure, ulong}
use amiga_dev.Layout.Agree.{Entry, in_order}

-- `struct RecordLock`
abbrev pub record_lock_fields : Fields
record_lock_fields =
    ("rec_FH", int32) ∷ ("rec_Offset", int32) ∷ ("rec_Length", int32) ∷ ("rec_Mode", int32) ∷ []

-- `STRUCTURE RecordLock`
abbrev pub record_lock_source : List Directive
record_lock_source =
    structure "RecordLock" (num 0)
    ∷ field bptr "rec_FH"
    ∷ field ulong "rec_Offset"
    ∷ field ulong "rec_Length"
    ∷ field ulong "rec_Mode"
    ∷ label "RecordLock_SIZEOF"
    ∷ []

-- The structures of this file, with the symbol of each field and of the size.
abbrev pub record_entries : List Entry
record_entries = in_order record_lock_fields record_lock_source (some "RecordLock_SIZEOF") ∷ []
