-- ===== src/Abi/Graphics.antt =====
-- graphics.library: include/inline/graphics_protos.h against ndk/include_h/pragmas/graphics_pragmas.h.
pub mod Stubs
pub mod Pragmas
use Prim.Native.String.{String}
use amiga_dev.Common.{◌≡◌, refl, true, some}
use amiga_dev.Abi.{Stub, find}
use amiga_dev.Abi.Agree.{SameCall, agree, agree_sound}
use amiga_dev.Abi.Graphics.Stubs.{graphics_stubs}
use amiga_dev.Abi.Graphics.Pragmas.{graphics_pragmas}

graphics-agree : agree graphics_stubs graphics_pragmas ≡ true
unfolding agree graphics_stubs graphics_pragmas
graphics-agree = refl

-- Each stub of the file for graphics.library that has a fixed number of arguments has a `libcall` pragma
-- of its name; entered through either with the same arguments and library base, the function starts
-- at the same address with the same values in the same registers.
pub graphics-SameCall :
    (name : String) (s : Stub)
    → find name graphics_stubs ≡ some s
    → SameCall s (find name graphics_pragmas)
graphics-SameCall name s h = agree_sound graphics_stubs graphics_pragmas name s graphics-agree h
