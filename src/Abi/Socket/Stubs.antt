-- ===== src/Abi/Socket/Stubs.antt =====
-- The inline stubs of targets/m68k-amigaos/netinclude/inline/socket.h.
use amiga_dev.Common.{[], ◌∷◌, ◌++◌}
use amiga_dev.Abi.{d, a, par, lit, Stub, stub, Table}

-- `CloseSocket` to `ObtainSocket`.
unfoldable pub stubs_closesocket_to_obtainsocket : Table Stub
stubs_closesocket_to_obtainsocket =
    ("CloseSocket", stub 0x78 ((d 0, par 0) ∷ []))
    ∷ ("Dup2Socket", stub 0x108 ((d 0, par 0) ∷ (d 1, par 1) ∷ []))
    ∷ ("Errno", stub 0xa2 ([]))
    ∷ ("GetSocketEvents", stub 0x12c ((a 0, par 0) ∷ []))
    ∷ ("Inet_LnaOf", stub 0xba ((d 0, par 0) ∷ []))
    ∷ ("Inet_MakeAddr", stub 0xc6 ((d 0, par 0) ∷ (d 1, par 1) ∷ []))
    ∷ ("Inet_NetOf", stub 0xc0 ((d 0, par 0) ∷ []))
    ∷ ("Inet_NtoA", stub 0xae ((d 0, par 0) ∷ []))
    ∷ ("IoctlSocket", stub 0x72 ((d 0, par 0) ∷ (d 1, par 1) ∷ (a 0, par 2) ∷ []))
    ∷ ("ObtainSocket", stub 0x90 ((d 0, par 0) ∷ (d 1, par 1) ∷ (d 2, par 2) ∷ (d 3, par 3) ∷ []))
    ∷ []

-- `ReleaseCopyOfSocket` to `getdtablesize`.
unfoldable pub stubs_releasecopyofsocket_to_getdtablesize : Table Stub
stubs_releasecopyofsocket_to_getdtablesize =
    ("ReleaseCopyOfSocket", stub 0x9c ((d 0, par 0) ∷ (d 1, par 1) ∷ []))
    ∷ ("ReleaseSocket", stub 0x96 ((d 0, par 0) ∷ (d 1, par 1) ∷ []))
    ∷ ("SetErrnoPtr", stub 0xa8 ((a 0, par 0) ∷ (d 0, par 1) ∷ []))
    ∷ ("SetSocketSignals", stub 0x84 ((d 0, par 0) ∷ (d 1, par 1) ∷ (d 2, par 2) ∷ []))
    ∷ ("SocketBaseTagList", stub 0x126 ((a 0, par 0) ∷ []))
    ∷ (
      "WaitSelect",
      stub 0x7e (
          (d 0, par 0)
          ∷ (a 0, par 1)
          ∷ (a 1, par 2)
          ∷ (a 2, par 3)
          ∷ (a 3, par 4)
          ∷ (d 1, par 5)
          ∷ []),
    )
    ∷ ("accept", stub 0x30 ((d 0, par 0) ∷ (a 0, par 1) ∷ (a 1, par 2) ∷ []))
    ∷ ("bind", stub 0x24 ((d 0, par 0) ∷ (a 0, par 1) ∷ (d 1, par 2) ∷ []))
    ∷ ("connect", stub 0x36 ((d 0, par 0) ∷ (a 0, par 1) ∷ (d 1, par 2) ∷ []))
    ∷ ("getdtablesize", stub 0x8a ([]))
    ∷ []

-- `gethostbyaddr` to `getservbyname`.
unfoldable pub stubs_gethostbyaddr_to_getservbyname : Table Stub
stubs_gethostbyaddr_to_getservbyname =
    ("gethostbyaddr", stub 0xd8 ((a 0, par 0) ∷ (d 0, par 1) ∷ (d 1, par 2) ∷ []))
    ∷ ("gethostbyname", stub 0xd2 ((a 0, par 0) ∷ []))
    ∷ ("gethostid", stub 0x120 ([]))
    ∷ ("gethostname", stub 0x11a ((a 0, par 0) ∷ (d 0, par 1) ∷ []))
    ∷ ("getnetbyaddr", stub 0xe4 ((d 0, par 0) ∷ (d 1, par 1) ∷ []))
    ∷ ("getnetbyname", stub 0xde ((a 0, par 0) ∷ []))
    ∷ ("getpeername", stub 0x6c ((d 0, par 0) ∷ (a 0, par 1) ∷ (a 1, par 2) ∷ []))
    ∷ ("getprotobyname", stub 0xf6 ((a 0, par 0) ∷ []))
    ∷ ("getprotobynumber", stub 0xfc ((d 0, par 0) ∷ []))
    ∷ ("getservbyname", stub 0xea ((a 0, par 0) ∷ (a 1, par 1) ∷ []))
    ∷ []

-- `getservbyport` to `recvmsg`.
unfoldable pub stubs_getservbyport_to_recvmsg : Table Stub
stubs_getservbyport_to_recvmsg =
    ("getservbyport", stub 0xf0 ((d 0, par 0) ∷ (a 0, par 1) ∷ []))
    ∷ ("getsockname", stub 0x66 ((d 0, par 0) ∷ (a 0, par 1) ∷ (a 1, par 2) ∷ []))
    ∷ (
      "getsockopt",
      stub 0x60 ((d 0, par 0) ∷ (d 1, par 1) ∷ (d 2, par 2) ∷ (a 0, par 3) ∷ (a 1, par 4) ∷ []),
    )
    ∷ ("inet_addr", stub 0xb4 ((a 0, par 0) ∷ []))
    ∷ ("inet_network", stub 0xcc ((a 0, par 0) ∷ []))
    ∷ ("listen", stub 0x2a ((d 0, par 0) ∷ (d 1, par 1) ∷ []))
    ∷ ("recv", stub 0x4e ((d 0, par 0) ∷ (a 0, par 1) ∷ (d 1, par 2) ∷ (d 2, par 3) ∷ []))
    ∷ (
      "recvfrom",
      stub 0x48 (
          (d 0, par 0)
          ∷ (a 0, par 1)
          ∷ (d 1, par 2)
          ∷ (d 2, par 3)
          ∷ (a 1, par 4)
          ∷ (a 2, par 5)
          ∷ []),
    )
    ∷ ("recvmsg", stub 0x114 ((d 0, par 0) ∷ (a 0, par 1) ∷ (d 1, par 2) ∷ []))
    ∷ []

-- `send` to `vsyslog`.
unfoldable pub stubs_send_to_vsyslog : Table Stub
stubs_send_to_vsyslog =
    ("send", stub 0x42 ((d 0, par 0) ∷ (a 0, par 1) ∷ (d 1, par 2) ∷ (d 2, par 3) ∷ []))
    ∷ ("sendmsg", stub 0x10e ((d 0, par 0) ∷ (a 0, par 1) ∷ (d 1, par 2) ∷ []))
    ∷ (
      "sendto",
      stub 0x3c (
          (d 0, par 0)
          ∷ (a 0, par 1)
          ∷ (d 1, par 2)
          ∷ (d 2, par 3)
          ∷ (a 1, par 4)
          ∷ (d 3, par 5)
          ∷ []),
    )
    ∷ (
      "setsockopt",
      stub 0x5a ((d 0, par 0) ∷ (d 1, par 1) ∷ (d 2, par 2) ∷ (a 0, par 3) ∷ (d 3, par 4) ∷ []),
    )
    ∷ ("shutdown", stub 0x54 ((d 0, par 0) ∷ (d 1, par 1) ∷ []))
    ∷ ("socket", stub 0x1e ((d 0, par 0) ∷ (d 1, par 1) ∷ (d 2, par 2) ∷ []))
    ∷ ("vsyslog", stub 0x102 ((d 0, par 0) ∷ (a 0, par 1) ∷ (a 1, par 2) ∷ []))
    ∷ []

-- `InheritSocket`, behind them, which loads a constant.
abbrev pub inherit_socket : Stub
inherit_socket = stub 0x90 ((d 0, par 0) ∷ (d 1, lit 0) ∷ [])

-- The stubs that have the name of a function of the library.
unfoldable pub named_stubs : Table Stub
unfolding stubs_closesocket_to_obtainsocket stubs_releasecopyofsocket_to_getdtablesize
    stubs_gethostbyaddr_to_getservbyname stubs_getservbyport_to_recvmsg stubs_send_to_vsyslog
named_stubs =
    stubs_closesocket_to_obtainsocket
    ++ (stubs_releasecopyofsocket_to_getdtablesize
        ++ (stubs_gethostbyaddr_to_getservbyname
            ++ (stubs_getservbyport_to_recvmsg ++ stubs_send_to_vsyslog)))

-- All stubs of the file that jump to the library.
abbrev pub socket_stubs : Table Stub
socket_stubs = named_stubs ++ ("InheritSocket", inherit_socket) ∷ []
