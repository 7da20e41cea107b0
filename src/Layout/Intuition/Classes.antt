-- ===== src/Layout/Intuition/Classes.antt =====
-- Structures of targets/m68k-amigaos/ndk/include_h/intuition/classes.h and of include_i/intuition/classes.i beside it.
use amiga_dev.Common.{some, none, List, [], ◌∷◌}
use amiga_dev.Layout.{Fields, int16, int32, ptr, struct_of}
use amiga_dev.Layout.Asm.{Directive, aptr, field, label, num, struct, structure, sym, ulong, uword}
use amiga_dev.Layout.Agree.{Entry, in_order}
use amiga_dev.Layout.Exec.Hooks.{hook_fields}
use amiga_dev.Layout.Exec.Libraries.{library_fields}
use amiga_dev.Layout.Exec.Nodes.{min_node_fields}

-- `struct IClass`
abbrev pub i_class_fields : Fields
i_class_fields =
    ("cl_Dispatcher", struct_of hook_fields)
    ∷ ("cl_Reserved", int32)
    ∷ ("cl_Super", ptr)
    ∷ ("cl_ID", int32)
    ∷ ("cl_InstOffset", int16)
    ∷ ("cl_InstSize", int16)
    ∷ ("cl_UserData", int32)
    ∷ ("cl_SubclassCount", int32)
    ∷ ("cl_ObjectCount", int32)
    ∷ ("cl_Flags", int32)
    ∷ []

-- `STRUCTURE ICLASS`
abbrev pub i_class_source : List Directive
i_class_source =
    structure "ICLASS" (num 0)
    ∷ struct "cl_Dispatcher" (sym "h_SIZEOF")
    ∷ field ulong "cl_Reserved"
    ∷ field aptr "cl_Super"
    ∷ field aptr "cl_ID"
    ∷ field uword "cl_InstOffset"
    ∷ field uword "cl_InstSize"
    ∷ field ulong "cl_UserData"
    ∷ field ulong "cl_SubclassCount"
    ∷ field ulong "cl_ObjectCount"
    ∷ field ulong "cl_Flags"
    ∷ []

-- `struct _Object`
abbrev pub object_fields : Fields
object_fields = ("o_Node", struct_of min_node_fields) ∷ ("o_Class", ptr) ∷ []

-- `STRUCTURE _Object`
abbrev pub object_source : List Directive
object_source =
    structure "_Object" (num 0)
    ∷ struct "o_Node" (sym "MLN_SIZE")
    ∷ field aptr "o_Class"
    ∷ label "_object_SIZEOF"
    ∷ []

-- `struct ClassLibrary`
abbrev pub class_library_fields : Fields
class_library_fields =
    ("cl_Lib", struct_of library_fields) ∷ ("cl_Pad", int16) ∷ ("cl_Class", ptr) ∷ []

-- `STRUCTURE ClassLibrary`
abbrev pub class_library_source : List Directive
class_library_source =
    structure "ClassLibrary" (num 0)
    ∷ struct "cl_Lib" (sym "LIB_SIZE")
    ∷ field uword "cl_Pad"
    ∷ field aptr "cl_Class"
    ∷ label "ClassLibrary_SIZEOF"
    ∷ []

-- The structures of this file, with the symbol of each field and of the size.
abbrev pub classes_entries : List Entry
classes_entries =
    in_order i_class_fields i_class_source none
    ∷ in_order object_fields object_source (some "_object_SIZEOF")
    ∷ in_order class_library_fields class_library_source (some "ClassLibrary_SIZEOF")
    ∷ []
