-- ===== src/Abi/Tests.antt =====
-- The tables of the library calls at single functions: the theorems at concrete inputs.
use Prim.Native.String.{String}
use amiga_dev.Common.{◌+◌, ◌%◌, ◌≤◌, ◌≡◌, ◌⊎◌, refl, some, [], ◌∷◌, arith}
use amiga_dev.Abi.{d, a, par, Stub, stub, find}
use amiga_dev.Abi.Agree.{SameCall}
use amiga_dev.Abi.Slots.{offsets_by}
use amiga_dev.Abi.Socket.{Inherits, socket-SameCall, socket_vectors}
use amiga_dev.Abi.Socket.Stubs.{named_stubs, inherit_socket, socket_stubs}
use amiga_dev.Abi.Socket.Pragmas.{socket_pragmas}
use amiga_dev.Abi.Dos.{dos-SameCall}
use amiga_dev.Abi.Dos.Stubs.{dos_stubs}
use amiga_dev.Abi.Dos.Pragmas.{dos_pragmas}
use amiga_dev.Abi.Exec.{exec-SameCall, exec_vectors}
use amiga_dev.Abi.Exec.Stubs.{exec_stubs}
use amiga_dev.Abi.Exec.Pragmas.{exec_pragmas}
use amiga_dev.Abi.Graphics.{graphics-SameCall}
use amiga_dev.Abi.Graphics.Stubs.{graphics_stubs}
use amiga_dev.Abi.Graphics.Pragmas.{graphics_pragmas}
use amiga_dev.Abi.Intuition.{intuition-SameCall}
use amiga_dev.Abi.Intuition.Stubs.{intuition_stubs}
use amiga_dev.Abi.Intuition.Pragmas.{intuition_pragmas}
use amiga_dev.Abi.Support.{support_stubs, support_pragmas, support-SameCall}

abbrev bind_stub : Stub
bind_stub = stub 0x24 ((d 0, par 0) ∷ (a 0, par 1) ∷ (d 1, par 2) ∷ [])

bind_found : find "bind" socket_stubs ≡ some bind_stub
unfolding find named_stubs
bind_found = refl

socket-SameCall_example :
    SameCall bind_stub (find "bind" socket_pragmas)
    ⊎ ((◌≡◌ {A = String} "bind" "InheritSocket")
        × Inherits bind_stub (find "ObtainSocket" socket_pragmas))
socket-SameCall_example = socket-SameCall "bind" bind_stub bind_found

inherit_found : find "InheritSocket" socket_stubs ≡ some inherit_socket
unfolding find named_stubs
inherit_found = refl

socket_vectors_example : (0x1e + 6 ≤ 0x24) × (0x1e % 6 ≡ 0) × (0x24 % 6 ≡ 0)
unfolding offsets_by socket_pragmas
socket_vectors_example = socket_vectors 0 1 0x1e 0x24 (omega arith) refl refl

abbrev open_stub : Stub
open_stub = stub 30 ((d 1, par 0) ∷ (d 2, par 1) ∷ [])

open_found : find "Open" dos_stubs ≡ some open_stub
unfolding find dos_stubs
open_found = refl

dos-SameCall_example : SameCall open_stub (find "Open" dos_pragmas)
dos-SameCall_example = dos-SameCall "Open" open_stub open_found

abbrev alloc_mem_stub : Stub
alloc_mem_stub = stub 198 ((d 0, par 0) ∷ (d 1, par 1) ∷ [])

alloc_mem_found : find "AllocMem" exec_stubs ≡ some alloc_mem_stub
unfolding find exec_stubs
alloc_mem_found = refl

exec-SameCall_example : SameCall alloc_mem_stub (find "AllocMem" exec_pragmas)
exec-SameCall_example = exec-SameCall "AllocMem" alloc_mem_stub alloc_mem_found

exec_vectors_example : (30 + 6 ≤ 72) × (30 % 6 ≡ 0) × (72 % 6 ≡ 0)
unfolding offsets_by exec_stubs
exec_vectors_example = exec_vectors 0 1 30 72 (omega arith) refl refl

abbrev text_stub : Stub
text_stub = stub 60 ((a 1, par 0) ∷ (a 0, par 1) ∷ (d 0, par 2) ∷ [])

text_found : find "Text" graphics_stubs ≡ some text_stub
unfolding find graphics_stubs
text_found = refl

graphics-SameCall_example : SameCall text_stub (find "Text" graphics_pragmas)
graphics-SameCall_example = graphics-SameCall "Text" text_stub text_found

abbrev help_control_stub : Stub
help_control_stub = stub 828 ((a 0, par 0) ∷ (d 0, par 1) ∷ [])

help_control_found : find "HelpControl" intuition_stubs ≡ some help_control_stub
unfolding find intuition_stubs
help_control_found = refl

intuition-SameCall_example : SameCall help_control_stub (find "HelpControl" intuition_pragmas)
intuition-SameCall_example = intuition-SameCall "HelpControl" help_control_stub help_control_found

abbrev get_unique_id_stub : Stub
get_unique_id_stub = stub 270 []

get_unique_id_found : find "GetUniqueID" support_stubs ≡ some get_unique_id_stub
unfolding find support_stubs
get_unique_id_found = refl

support-SameCall_example : SameCall get_unique_id_stub (find "GetUniqueID" support_pragmas)
support-SameCall_example = support-SameCall "GetUniqueID" get_unique_id_stub get_unique_id_found
