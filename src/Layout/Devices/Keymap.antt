-- ===== src/Layout/Devices/Keymap.antt =====
-- Structures of targets/m68k-amigaos/ndk/include_h/devices/keymap.h and of include_i/devices/keymap.i beside it.
use amiga_dev.Common.{some, List, [], ◌∷◌}
use amiga_dev.Layout.{Fields, ptr, struct_of}
use amiga_dev.Layout.Asm.{Directive, aptr, field, label, num, struct, structure, sym}
use amiga_dev.Layout.Agree.{Entry, in_order}
use amiga_dev.Layout.Exec.Lists.{list_fields}
use amiga_dev.Layout.Exec.Nodes.{node_fields}

-- `struct KeyMap`
abbrev pub key_map_fields : Fields
key_map_fields =
    ("km_LoKeyMapTypes", ptr)
    ∷ ("km_LoKeyMap", ptr)
    ∷ ("km_LoCapsable", ptr)
    ∷ ("km_LoRepeatable", ptr)
    ∷ ("km_HiKeyMapTypes", ptr)
    ∷ ("km_HiKeyMap", ptr)
    ∷ ("km_HiCapsable", ptr)
    ∷ ("km_HiRepeatable", ptr)
    ∷ []

-- `STRUCTURE KeyMap`
abbrev pub key_map_source : List Directive
key_map_source =
    structure "KeyMap" (num 0)
    ∷ field aptr "km_LoKeyMapTypes"
    ∷ field aptr "km_LoKeyMap"
    ∷ field aptr "km_LoCapsable"
    ∷ field aptr "km_LoRepeatable"
    ∷ field aptr "km_HiKeyMapTypes"
    ∷ field aptr "km_HiKeyMap"
    ∷ field aptr "km_HiCapsable"
    ∷ field aptr "km_HiRepeatable"
    ∷ label "km_SIZEOF"
    ∷ []

-- `struct KeyMapNode`
abbrev pub key_map_node_fields : Fields
key_map_node_fields =
    ("kn_Node", struct_of node_fields) ∷ ("kn_KeyMap", struct_of key_map_fields) ∷ []

-- `STRUCTURE KeyMapNode`
abbrev pub key_map_node_source : List Directive
key_map_node_source =
    structure "KeyMapNode" (num 0)
    ∷ struct "kn_Node" (sym "LN_SIZE")
    ∷ struct "kn_KeyMap" (sym "km_SIZEOF")
    ∷ label "kn_SIZEOF"
    ∷ []

-- `struct KeyMapResource`
abbrev pub key_map_resource_fields : Fields
key_map_resource_fields =
    ("kr_Node", struct_of node_fields) ∷ ("kr_List", struct_of list_fields) ∷ []

-- `STRUCTURE KeyMapResource`
abbrev pub key_map_resource_source : List Directive
key_map_resource_source =
    structure "KeyMapResource" (num 0)
    ∷ struct "kr_Node" (sym "LN_SIZE")
    ∷ struct "kr_List" (sym "LH_SIZE")
    ∷ label "kr_SIZEOF"
    ∷ []

-- The structures of this file, with the symbol of each field and of the size.
abbrev pub keymap_entries : List Entry
keymap_entries =
    in_order key_map_fields key_map_source (some "km_SIZEOF")
    ∷ in_order key_map_node_fields key_map_node_source (some "kn_SIZEOF")
    ∷ in_order key_map_resource_fields key_map_resource_source (some "kr_SIZEOF")
    ∷ []
