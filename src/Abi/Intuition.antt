-- ===== src/Abi/Intuition.antt =====
-- intuition.library: include/inline/intuition_protos.h against ndk/include_h/pragmas/intuition_pragmas.h.
pub mod Stubs
pub mod Pragmas
use Prim.Native.String.{String}
use amiga_dev.Common.{◌≡◌, refl, true, some}
use amiga_dev.Abi.{Stub, find}
use amiga_dev.Abi.Agree.{SameCall, agree, agree_sound}
use amiga_dev.Abi.Intuition.Stubs.{intuition_stubs}
use amiga_dev.Abi.Intuition.Pragmas.{intuition_pragmas}

intuition-agree : agree intuition_stubs intuition_pragmas ≡ true
unfolding agree intuition_stubs intuition_pragmas
intuition-agree = refl

-- Each stub of the file for intuition.library that has a fixed number of arguments has a `libcall` pragma
-- of its name; entered through either with the same arguments and library base, the function starts
-- at the same address with the same values in the same registers.
pub intuition-SameCall :
    (name : String) (s : Stub)
    → find name intuition_stubs ≡ some s
    → SameCall s (find name intuition_pragmas)
intuition-SameCall name s h = agree_sound intuition_stubs intuition_pragmas name s intuition-agree h
