-- ===== src/Abi/Socket.antt =====
-- bsdsocket.library: netinclude/inline/socket.h against netinclude/pragmas/socket_pragmas.h.
pub mod Stubs
pub mod Pragmas
use Prim.Native.String.{String}
use text.Mathlib.Text.{◌==◌}
use amiga_dev.Common.{
  ℕ, ◌+◌, ◌%◌, ◌≤◌, ◌<◌, ◌≡◌, refl, true, some, List, [], ◌∷◌, ◌++◌, map, ◌⊎◌, inl, inr, sym,
  Option,
}
use amiga_dev.Abi.{
  d, Reg, Stub, Pragma, pragma, Table, find, enter_stub, enter_pragma, enter, args_of, count_of,
}
use amiga_dev.Abi.Agree.{SameCall, agree, agree_sound, find-append, find-single}
use amiga_dev.Abi.Slots.{IsAt, offsets_by, ascending, vectors_apart}
use amiga_dev.Abi.Socket.Stubs.{named_stubs, inherit_socket, socket_stubs}
use amiga_dev.Abi.Socket.Pragmas.{socket_pragmas}

named-agree : agree named_stubs socket_pragmas ≡ true
unfolding agree named_stubs socket_pragmas
named-agree = refl

-- A stub of one argument that enters a function of four arguments, the second of which is 0: the third
-- and the fourth, in `d2` and `d3`, are not loaded, and the rest is as the pragma loads it.
pub record Inherits (s : Stub) (found : Option Pragma) : Type 0 where
  pub called : Pragma
  pub is_found : found ≡ some called
  pub same_address :
      (base x y z : ℕ)
      → (enter_stub s base (x ∷ [])).address
        ≡ (enter_pragma called base (x ∷ 0 ∷ y ∷ z ∷ [])).address
  pub same_loads :
      (base x y z : ℕ)
      → (enter_stub s base (x ∷ [])).loaded ++ (d 2, y) ∷ (d 3, z) ∷ []
        ≡ (enter_pragma called base (x ∷ 0 ∷ y ∷ z ∷ [])).loaded

inherit_socket-Inherits : Inherits inherit_socket (find "ObtainSocket" socket_pragmas)
unfolding find socket_pragmas enter_stub enter_pragma args_of enter
inherit_socket-Inherits = record {
  called = pragma 0x90 0x321004;
  is_found = refl;
  same_address = λ base x y z. refl;
  same_loads = λ base x y z. refl;
}

-- Each stub of the file that jumps to the library, but for `InheritSocket`, has a `libcall` pragma of
-- its name; entered through either with the same arguments and library base, the function starts at
-- the same address with the same values in the same registers. `InheritSocket`, which has none, enters
-- the function of the pragma `ObtainSocket` with its argument as the first one and the domain 0, in
-- the registers in which that pragma passes them; it does not load the type and the protocol.
pub socket-SameCall :
    (name : String) (s : Stub)
    → find name socket_stubs ≡ some s
    → SameCall s (find name socket_pragmas)
      ⊎ ((name ≡ "InheritSocket") × Inherits s (find "ObtainSocket" socket_pragmas))
socket-SameCall name s h = elim (find-append name named_stubs _ s h) [
  | inl named ↦ inl (agree_sound named_stubs socket_pragmas name s named-agree named)
  | inr inherited ↦
      let (same_name, same) = find-single "InheritSocket" name inherit_socket s inherited in
      inr (sym same_name, rw (← same) inherit_socket-Inherits)
]

-- The vector offsets, in the order of the `libcall` pragmas.
abbrev pub socket_offsets : List ℕ
socket_offsets = offsets_by (λ e. e.offset) socket_pragmas

socket-ascending : ascending 30 socket_offsets ≡ true
unfolding ascending offsets_by socket_pragmas
socket-ascending = refl

-- Every function of the library has six bytes of the jump table for itself: of two in the file, the
-- later one's vector starts at least six bytes behind, and all offsets are multiples of six.
pub socket_vectors :
    (i j o o' : ℕ)
    → i < j
    → IsAt socket_offsets i o
    → IsAt socket_offsets j o'
    → (o + 6 ≤ o') × (o % 6 ≡ 0) × (o' % 6 ≡ 0)
socket_vectors i j o o' = vectors_apart socket_offsets 30 i j o o' socket-ascending
