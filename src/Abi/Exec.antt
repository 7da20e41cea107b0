-- ===== src/Abi/Exec.antt =====
-- exec.library: include/inline/exec_protos.h against ndk/include_h/pragmas/exec_pragmas.h.
pub mod Stubs
pub mod Pragmas
use Prim.Native.String.{String}
use text.Mathlib.Text.{◌==◌}
use amiga_dev.Common.{ℕ, ◌+◌, ◌%◌, ◌≤◌, ◌<◌, ◌≡◌, refl, true, some, List, [], ◌∷◌, map}
use amiga_dev.Abi.{Stub, Pragma, Table, find}
use amiga_dev.Abi.Agree.{SameCall, agree, agree_sound}
use amiga_dev.Abi.Slots.{IsAt, offsets_by, ascending, vectors_apart}
use amiga_dev.Abi.Exec.Stubs.{exec_stubs}
use amiga_dev.Abi.Exec.Pragmas.{exec_pragmas}

exec-agree : agree exec_stubs exec_pragmas ≡ true
unfolding agree exec_stubs exec_pragmas
exec-agree = refl

-- Each stub of an exec function has a `syscall` pragma of its name; entered through either
-- with the same arguments and library base, the function starts at the same address with the same
-- values in the same registers.
pub exec-SameCall :
    (name : String) (s : Stub) → find name exec_stubs ≡ some s → SameCall s (find name exec_pragmas)
exec-SameCall name s h = agree_sound exec_stubs exec_pragmas name s exec-agree h

-- The vector offsets, in the order of the stubs.
abbrev pub exec_offsets : List ℕ
exec_offsets = offsets_by (λ e. e.offset) exec_stubs

exec-ascending : ascending 30 exec_offsets ≡ true
unfolding ascending offsets_by exec_stubs
exec-ascending = refl

-- Every function of the library has six bytes of the jump table for itself: of two in the file, the
-- later one's vector starts at least six bytes behind, and all offsets are multiples of six.
pub exec_vectors :
    (i j o o' : ℕ)
    → i < j
    → IsAt exec_offsets i o
    → IsAt exec_offsets j o'
    → (o + 6 ≤ o') × (o % 6 ≡ 0) × (o' % 6 ≡ 0)
exec_vectors i j o o' = vectors_apart exec_offsets 30 i j o o' exec-ascending
