-- ===== src/Layout/Exec/Name.antt =====
-- Structures of targets/m68k-amigaos/ndk/include_h/utility/name.h and of include_i/utility/name.i beside it.
use amiga_dev.Common.{none, List, [], ◌∷◌}
use amiga_dev.Layout.{Fields, int32}
use amiga_dev.Layout.Asm.{Directive, aptr, field, label, num, structure}
use amiga_dev.Layout.Agree.{Entry, in_order}

-- `struct NamedObject`
abbrev pub named_object_fields : Fields
named_object_fields = ("no_Object", int32) ∷ []

-- `STRUCTURE NamedObject`
abbrev pub named_object_source : List Directive
named_object_source =
    structure "NamedObject" (num 0) ∷ field aptr "no_Object" ∷ label "NamedObject_End" ∷ []

-- The structures of this file, with the symbol of each field and of the size.
abbrev pub name_entries : List Entry
name_entries = in_order named_object_fields named_object_source none ∷ []
