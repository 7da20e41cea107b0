-- ===== src/Layout/Exec/Semaphores.antt =====
-- Structures of targets/m68k-amigaos/ndk/include_h/exec/semaphores.h and of include_i/exec/semaphores.i beside it.
use amiga_dev.Common.{some, List, [], ◌∷◌}
use amiga_dev.Layout.{Fields, int16, ptr, struct_of}
use amiga_dev.Layout.Asm.{Directive, aptr, field, label, struct, structure, sym, word}
use amiga_dev.Layout.Agree.{Entry, in_order}
use amiga_dev.Layout.Exec.Lists.{min_list_fields}
use amiga_dev.Layout.Exec.Nodes.{min_node_fields, node_fields}
use amiga_dev.Layout.Exec.Ports.{message_fields, msg_port_fields}

-- `struct SemaphoreRequest`
abbrev pub semaphore_request_fields : Fields
semaphore_request_fields = ("sr_Link", struct_of min_node_fields) ∷ ("sr_Waiter", ptr) ∷ []

-- `STRUCTURE SSR`
abbrev pub semaphore_request_source : List Directive
semaphore_request_source =
    structure "SSR" (sym "MLN_SIZE") ∷ field aptr "SSR_WAITER" ∷ label "SSR_SIZE" ∷ []

-- `struct SignalSemaphore`
abbrev pub signal_semaphore_fields : Fields
signal_semaphore_fields =
    ("ss_Link", struct_of node_fields)
    ∷ ("ss_NestCount", int16)
    ∷ ("ss_WaitQueue", struct_of min_list_fields)
    ∷ ("ss_MultipleLink", struct_of semaphore_request_fields)
    ∷ ("ss_Owner", ptr)
    ∷ ("ss_QueueCount", int16)
    ∷ []

-- `STRUCTURE SS`
abbrev pub signal_semaphore_source : List Directive
signal_semaphore_source =
    structure "SS" (sym "LN_SIZE")
    ∷ field word "SS_NESTCOUNT"
    ∷ struct "SS_WAITQUEUE" (sym "MLH_SIZE")
    ∷ struct "SS_MULTIPLELINK" (sym "SSR_SIZE")
    ∷ field aptr "SS_OWNER"
    ∷ field word "SS_QUEUECOUNT"
    ∷ label "SS_SIZE"
    ∷ []

-- `struct SemaphoreMessage`
abbrev pub semaphore_message_fields : Fields
semaphore_message_fields = ("ssm_Message", struct_of message_fields) ∷ ("ssm_Semaphore", ptr) ∷ []

-- `STRUCTURE SemaphoreMessage`
abbrev pub semaphore_message_source : List Directive
semaphore_message_source =
    structure "SemaphoreMessage" (sym "MN_SIZE")
    ∷ field aptr "SSM_SEMAPHORE"
    ∷ label "SSM_SIZEOF"
    ∷ []

-- `struct Semaphore`
abbrev pub semaphore_fields : Fields
semaphore_fields = ("sm_MsgPort", struct_of msg_port_fields) ∷ ("sm_Bids", int16) ∷ []

-- `STRUCTURE SM`
abbrev pub semaphore_source : List Directive
semaphore_source = structure "SM" (sym "MP_SIZE") ∷ field word "SM_BIDS" ∷ label "SM_SIZE" ∷ []

-- The structures of this file, with the symbol of each field and of the size.
abbrev pub semaphores_entries : List Entry
semaphores_entries =
    in_order semaphore_request_fields semaphore_request_source (some "SSR_SIZE")
    ∷ in_order signal_semaphore_fields signal_semaphore_source (some "SS_SIZE")
    ∷ in_order semaphore_message_fields semaphore_message_source (some "SSM_SIZEOF")
    ∷ in_order semaphore_fields semaphore_source (some "SM_SIZE")
    ∷ []
