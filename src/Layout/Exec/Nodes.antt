-- ===== src/Layout/Exec/Nodes.antt =====
-- Structures of targets/m68k-amigaos/ndk/include_h/exec/nodes.h and of include_i/exec/nodes.i beside it.
use amiga_dev.Common.{some, List, [], ◌∷◌}
use amiga_dev.Layout.{Fields, int8, ptr}
use amiga_dev.Layout.Asm.{Directive, aptr, byte, field, label, num, structure, ubyte}
use amiga_dev.Layout.Agree.{Entry, in_order}

-- `struct Node`
abbrev pub node_fields : Fields
node_fields =
    ("ln_Succ", ptr)
    ∷ ("ln_Pred", ptr)
    ∷ ("ln_Type", int8)
    ∷ ("ln_Pri", int8)
    ∷ ("ln_Name", ptr)
    ∷ []

-- `STRUCTURE LN`
abbrev pub node_source : List Directive
node_source =
    structure "LN" (num 0)
    ∷ field aptr "LN_SUCC"
    ∷ field aptr "LN_PRED"
    ∷ field ubyte "LN_TYPE"
    ∷ field byte "LN_PRI"
    ∷ field aptr "LN_NAME"
    ∷ label "LN_SIZE"
    ∷ []

-- `struct MinNode`
abbrev pub min_node_fields : Fields
min_node_fields = ("mln_Succ", ptr) ∷ ("mln_Pred", ptr) ∷ []

-- `STRUCTURE MLN`
abbrev pub min_node_source : List Directive
min_node_source =
    structure "MLN" (num 0) ∷ field aptr "MLN_SUCC" ∷ field aptr "MLN_PRED" ∷ label "MLN_SIZE" ∷ []

-- The structures of this file, with the symbol of each field and of the size.
abbrev pub nodes_entries : List Entry
nodes_entries =
    in_order node_fields node_source (some "LN_SIZE")
    ∷ in_order min_node_fields min_node_source (some "MLN_SIZE")
    ∷ []
