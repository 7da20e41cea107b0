-- ===== src/Layout/Intuition/Intuitionbase.antt =====
-- Structures of targets/m68k-amigaos/ndk/include_h/intuition/intuitionbase.h and of include_i/intuition/intuitionbase.i beside it.
use amiga_dev.Common.{none, List, [], ◌∷◌}
use amiga_dev.Layout.{Fields, int16, int32, ptr, struct_of}
use amiga_dev.Layout.Asm.{Directive, aptr, field, num, struct, structure, sym, ulong, word}
use amiga_dev.Layout.Agree.{Entry, in_order}
use amiga_dev.Layout.Exec.Libraries.{library_fields}
use amiga_dev.Layout.Graphics.View.{view_fields}

-- `struct IntuitionBase`
abbrev pub intuition_base_fields : Fields
intuition_base_fields =
    ("LibNode", struct_of library_fields)
    ∷ ("ViewLord", struct_of view_fields)
    ∷ ("ActiveWindow", ptr)
    ∷ ("ActiveScreen", ptr)
    ∷ ("FirstScreen", ptr)
    ∷ ("Flags", int32)
    ∷ ("MouseY", int16)
    ∷ ("MouseX", int16)
    ∷ ("Seconds", int32)
    ∷ ("Micros", int32)
    ∷ []

-- `STRUCTURE IntuitionBase`
abbrev pub intuition_base_source : List Directive
intuition_base_source =
    structure "IntuitionBase" (num 0)
    ∷ struct "ib_LibNode" (sym "LIB_SIZE")
    ∷ struct "ib_ViewLord" (sym "v_SIZEOF")
    ∷ field aptr "ib_ActiveWindow"
    ∷ field aptr "ib_ActiveScreen"
    ∷ field aptr "ib_FirstScreen"
    ∷ field ulong "ib_Flags"
    ∷ field word "ib_MouseY"
    ∷ field word "ib_MouseX"
    ∷ field ulong "ib_Seconds"
    ∷ field ulong "ib_Micros"
    ∷ []

-- The structures of this file, with the symbol of each field and of the size.
abbrev pub intuitionbase_entries : List Entry
intuitionbase_entries = in_order intuition_base_fields intuition_base_source none ∷ []
