-- ===== src/Layout/Devices/Card.antt =====
-- Structures of targets/m68k-amigaos/ndk/include_h/resources/card.h and of include_i/resources/card.i beside it.
use amiga_dev.Common.{some, List, [], ◌∷◌}
use amiga_dev.Layout.{Fields, int32, int8, ptr, struct_of}
use amiga_dev.Layout.Asm.{
  Directive, alignword, aptr, field, label, num, struct, structure, sym, ubyte, ulong,
}
use amiga_dev.Layout.Agree.{Entry, in_order}
use amiga_dev.Layout.Exec.Nodes.{node_fields}

-- `struct CardHandle`
abbrev pub card_handle_fields : Fields
card_handle_fields =
    ("cah_CardNode", struct_of node_fields)
    ∷ ("cah_CardRemoved", ptr)
    ∷ ("cah_CardInserted", ptr)
    ∷ ("cah_CardStatus", ptr)
    ∷ ("cah_CardFlags", int8)
    ∷ []

-- `STRUCTURE CardHandle`
abbrev pub card_handle_source : List Directive
card_handle_source =
    structure "CardHandle" (num 0)
    ∷ struct "cah_CardNode" (sym "LN_SIZE")
    ∷ field aptr "cah_CardRemoved"
    ∷ field aptr "cah_CardInserted"
    ∷ field aptr "cah_CardStatus"
    ∷ field ubyte "cah_CardFlags"
    ∷ alignword
    ∷ label "CardHandle_SIZEOF"
    ∷ []

-- `struct DeviceTData`
abbrev pub device_t_data_fields : Fields
device_t_data_fields =
    ("dtd_DTsize", int32)
    ∷ ("dtd_DTspeed", int32)
    ∷ ("dtd_DTtype", int8)
    ∷ ("dtd_DTflags", int8)
    ∷ []

-- `STRUCTURE DeviceTData`
abbrev pub device_t_data_source : List Directive
device_t_data_source =
    structure "DeviceTData" (num 0)
    ∷ field ulong "dtd_DTsize"
    ∷ field ulong "dtd_DTspeed"
    ∷ field ubyte "dtd_DTtype"
    ∷ field ubyte "dtd_DTflags"
    ∷ alignword
    ∷ label "DeviceTData_SIZEOF"
    ∷ []

-- `struct CardMemoryMap`
abbrev pub card_memory_map_fields : Fields
card_memory_map_fields =
    ("cmm_CommonMemory", ptr)
    ∷ ("cmm_AttributeMemory", ptr)
    ∷ ("cmm_IOMemory", ptr)
    ∷ ("cmm_CommonMemSize", int32)
    ∷ ("cmm_AttributeMemSize", int32)
    ∷ ("cmm_IOMemSize", int32)
    ∷ []

-- `STRUCTURE CardMemoryMap`
abbrev pub card_memory_map_source : List Directive
card_memory_map_source =
    structure "CardMemoryMap" (num 0)
    ∷ field aptr "cmm_CommonMemory"
    ∷ field aptr "cmm_AttributeMemory"
    ∷ field aptr "cmm_IOMemory"
    ∷ field ulong "cmm_CommonMemSize"
    ∷ field ulong "cmm_AttributeMemSize"
    ∷ field ulong "cmm_IOMemSize"
    ∷ label "CardMemoryMap_SIZEOF"
    ∷ []

-- The structures of this file, with the symbol of each field and of the size.
abbrev pub card_entries : List Entry
card_entries =
    in_order card_handle_fields card_handle_source (some "CardHandle_SIZEOF")
    ∷ in_order device_t_data_fields device_t_data_source (some "DeviceTData_SIZEOF")
    ∷ in_order card_memory_map_fields card_memory_map_source (some "CardMemoryMap_SIZEOF")
    ∷ []
