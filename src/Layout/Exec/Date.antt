-- ===== src/Layout/Exec/Date.antt =====
-- Structures of targets/m68k-amigaos/ndk/include_h/utility/date.h and of include_i/utility/date.i beside it.
use amiga_dev.Common.{some, List, [], ◌∷◌}
use amiga_dev.Layout.{Fields, int16}
use amiga_dev.Layout.Asm.{Directive, field, label, num, structure, uword}
use amiga_dev.Layout.Agree.{Entry, in_order}

-- `struct ClockData`
abbrev pub clock_data_fields : Fields
clock_data_fields =
    ("sec", int16)
    ∷ ("min", int16)
    ∷ ("hour", int16)
    ∷ ("mday", int16)
    ∷ ("month", int16)
    ∷ ("year", int16)
    ∷ ("wday", int16)
    ∷ []

-- `STRUCTURE CLOCKDATA`
abbrev pub clock_data_source : List Directive
clock_data_source =
    structure "CLOCKDATA" (num 0)
    ∷ field uword "sec"
    ∷ field uword "min"
    ∷ field uword "hour"
    ∷ field uword "mday"
    ∷ field uword "month"
    ∷ field uword "year"
    ∷ field uword "wday"
    ∷ label "CD_SIZE"
    ∷ []

-- The structures of this file, with the symbol of each field and of the size.
abbrev pub date_entries : List Entry
date_entries = in_order clock_data_fields clock_data_source (some "CD_SIZE") ∷ []
