-- ===== src/Layout/Exec/Tasks.antt =====
-- Structures of targets/m68k-amigaos/ndk/include_h/exec/tasks.h and of include_i/exec/tasks.i beside it.
use amiga_dev.Common.{some, List, [], ◌∷◌}
use amiga_dev.Layout.{Fields, int32}
use amiga_dev.Layout.Asm.{Directive, aptr, field, label, num, structure, ulong}
use amiga_dev.Layout.Agree.{Entry, in_order}

-- `struct StackSwapStruct`
abbrev pub stack_swap_struct_fields : Fields
stack_swap_struct_fields = ("stk_Lower", int32) ∷ ("stk_Upper", int32) ∷ ("stk_Pointer", int32) ∷ []

-- `STRUCTURE StackSwapStruct`
abbrev pub stack_swap_struct_source : List Directive
stack_swap_struct_source =
    structure "StackSwapStruct" (num 0)
    ∷ field aptr "stk_Lower"
    ∷ field ulong "stk_Upper"
    ∷ field aptr "stk_Pointer"
    ∷ label "StackSwapStruct_SIZEOF"
    ∷ []

-- The structures of this file, with the symbol of each field and of the size.
abbrev pub tasks_entries : List Entry
tasks_entries =
    in_order stack_swap_struct_fields stack_swap_struct_source (some "StackSwapStruct_SIZEOF") ∷ []
