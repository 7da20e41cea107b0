-- ===== src/Abi/Dos.antt =====
-- dos.library: include/inline/dos_protos.h against ndk/include_h/pragmas/dos_pragmas.h.
pub mod Stubs
pub mod Pragmas
use Prim.Native.String.{String}
use text.Mathlib.Text.{◌==◌}
use amiga_dev.Common.{ℕ, ◌+◌, ◌%◌, ◌≤◌, ◌<◌, ◌≡◌, refl, true, some, List, [], ◌∷◌, map}
use amiga_dev.Abi.{Stub, Pragma, Table, find}
use amiga_dev.Abi.Agree.{SameCall, agree, agree_sound}
use amiga_dev.Abi.Slots.{IsAt, ascending, vectors_apart}
use amiga_dev.Abi.Dos.Stubs.{dos_stubs}
use amiga_dev.Abi.Dos.Pragmas.{dos_pragmas}

dos-agree : agree dos_stubs dos_pragmas ≡ true
unfolding agree dos_stubs dos_pragmas
dos-agree = refl

-- Each stub of a dos function with a fixed number of arguments has a `libcall` pragma of its name; entered through either
-- with the same arguments and library base, the function starts at the same address with the same
-- values in the same registers.
pub dos-SameCall :
    (name : String) (s : Stub) → find name dos_stubs ≡ some s → SameCall s (find name dos_pragmas)
dos-SameCall name s h = agree_sound dos_stubs dos_pragmas name s dos-agree h
