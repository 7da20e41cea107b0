-- ===== src/Abi/Support.antt =====
-- The smaller libraries, devices and resources: include/inline/*_protos.h against
-- ndk/include_h/pragmas/*_pragmas.h, a module for each.
pub mod Amigaguide
pub mod Asl
pub mod Battclock
pub mod Cardres
pub mod Commodities
pub mod Datatypes
pub mod Disk
pub mod Diskfont
pub mod Expansion
pub mod Gadtools
pub mod Icon
pub mod Iffparse
pub mod Keymap
pub mod Layers
pub mod Locale
pub mod Lowlevel
pub mod Mathffp
pub mod Mathtrans
pub mod Nonvolatile
pub mod Potgo
pub mod Realtime
pub mod Rexxsyslib
pub mod Utility
use Prim.Native.String.{String}
use amiga_dev.Common.{◌≡◌, refl, true, some, List, ◌++◌}
use amiga_dev.Abi.{Stub, Pragma, Table, find}
use amiga_dev.Abi.Agree.{SameCall, agree, agree_sound}
use amiga_dev.Abi.Support.Amigaguide.{amigaguide_stubs, amigaguide_pragmas}
use amiga_dev.Abi.Support.Asl.{asl_stubs, asl_pragmas}
use amiga_dev.Abi.Support.Battclock.{battclock_stubs, battclock_pragmas}
use amiga_dev.Abi.Support.Cardres.{cardres_stubs, cardres_pragmas}
use amiga_dev.Abi.Support.Commodities.{commodities_stubs, commodities_pragmas}
use amiga_dev.Abi.Support.Datatypes.{datatypes_stubs, datatypes_pragmas}
use amiga_dev.Abi.Support.Disk.{disk_stubs, disk_pragmas}
use amiga_dev.Abi.Support.Diskfont.{diskfont_stubs, diskfont_pragmas}
use amiga_dev.Abi.Support.Expansion.{expansion_stubs, expansion_pragmas}
use amiga_dev.Abi.Support.Gadtools.{gadtools_stubs, gadtools_pragmas}
use amiga_dev.Abi.Support.Icon.{icon_stubs, icon_pragmas}
use amiga_dev.Abi.Support.Iffparse.{iffparse_stubs, iffparse_pragmas}
use amiga_dev.Abi.Support.Keymap.{keymap_stubs, keymap_pragmas}
use amiga_dev.Abi.Support.Layers.{layers_stubs, layers_pragmas}
use amiga_dev.Abi.Support.Locale.{locale_stubs, locale_pragmas}
use amiga_dev.Abi.Support.Lowlevel.{lowlevel_stubs, lowlevel_pragmas}
use amiga_dev.Abi.Support.Mathffp.{mathffp_stubs, mathffp_pragmas}
use amiga_dev.Abi.Support.Mathtrans.{mathtrans_stubs, mathtrans_pragmas}
use amiga_dev.Abi.Support.Nonvolatile.{nonvolatile_stubs, nonvolatile_pragmas}
use amiga_dev.Abi.Support.Potgo.{potgo_stubs, potgo_pragmas}
use amiga_dev.Abi.Support.Realtime.{realtime_stubs, realtime_pragmas}
use amiga_dev.Abi.Support.Rexxsyslib.{rexxsyslib_stubs, rexxsyslib_pragmas}
use amiga_dev.Abi.Support.Utility.{utility_stubs, utility_pragmas}

-- The functions have different names, so one table holds them all.
unfoldable pub support_stubs : Table Stub
unfolding amigaguide_stubs asl_stubs battclock_stubs cardres_stubs commodities_stubs datatypes_stubs
    disk_stubs diskfont_stubs expansion_stubs gadtools_stubs icon_stubs iffparse_stubs keymap_stubs
    layers_stubs locale_stubs lowlevel_stubs mathffp_stubs mathtrans_stubs nonvolatile_stubs
    potgo_stubs realtime_stubs rexxsyslib_stubs utility_stubs
support_stubs =
    amigaguide_stubs
    ++ (asl_stubs
        ++ (battclock_stubs
            ++ (cardres_stubs
                ++ (commodities_stubs
                    ++ (datatypes_stubs
                        ++ (disk_stubs
                            ++ (diskfont_stubs
                                ++ (expansion_stubs
                                    ++ (gadtools_stubs
                                        ++ (icon_stubs
                                            ++ (iffparse_stubs
                                                ++ (keymap_stubs
                                                    ++ (layers_stubs
                                                        ++ (locale_stubs
                                                            ++ (lowlevel_stubs
                                                            ++ (mathffp_stubs
                                                            ++ (mathtrans_stubs
                                                            ++ (nonvolatile_stubs
                                                            ++ (potgo_stubs
                                                            ++ (realtime_stubs
                                                            ++ (rexxsyslib_stubs
                                                            ++ utility_stubs)))))))))))))))))))))

unfoldable pub support_pragmas : Table Pragma
unfolding amigaguide_pragmas asl_pragmas battclock_pragmas cardres_pragmas commodities_pragmas
    datatypes_pragmas disk_pragmas diskfont_pragmas expansion_pragmas gadtools_pragmas icon_pragmas
    iffparse_pragmas keymap_pragmas layers_pragmas locale_pragmas lowlevel_pragmas mathffp_pragmas
    mathtrans_pragmas nonvolatile_pragmas potgo_pragmas realtime_pragmas rexxsyslib_pragmas
    utility_pragmas
support_pragmas =
    amigaguide_pragmas
    ++ (asl_pragmas
        ++ (battclock_pragmas
            ++ (cardres_pragmas
                ++ (commodities_pragmas
                    ++ (datatypes_pragmas
                        ++ (disk_pragmas
                            ++ (diskfont_pragmas
                                ++ (expansion_pragmas
                                    ++ (gadtools_pragmas
                                        ++ (icon_pragmas
                                            ++ (iffparse_pragmas
                                                ++ (keymap_pragmas
                                                    ++ (layers_pragmas
                                                        ++ (locale_pragmas
                                                            ++ (lowlevel_pragmas
                                                            ++ (mathffp_pragmas
                                                            ++ (mathtrans_pragmas
                                                            ++ (nonvolatile_pragmas
                                                            ++ (potgo_pragmas
                                                            ++ (realtime_pragmas
                                                            ++ (rexxsyslib_pragmas
                                                            ++ utility_pragmas)))))))))))))))))))))

support-agree : agree support_stubs support_pragmas ≡ true
unfolding agree support_stubs support_pragmas
support-agree = refl

-- Each stub of the smaller libraries that has a fixed number of arguments has a `libcall` pragma of
-- its name; entered through either with the same arguments and library base, the function starts
-- at the same address with the same values in the same registers.
pub support-SameCall :
    (name : String) (s : Stub)
    → find name support_stubs ≡ some s
    → SameCall s (find name support_pragmas)
support-SameCall name s h = agree_sound support_stubs support_pragmas name s support-agree h
