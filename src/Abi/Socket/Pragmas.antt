-- ===== src/Abi/Socket/Pragmas.antt =====
-- The pragmas of targets/m68k-amigaos/netinclude/pragmas/socket_pragmas.h.
use amiga_dev.Common.{[], ◌∷◌}
use amiga_dev.Abi.{Pragma, pragma, Table}

-- The `libcall` pragmas of the small names.
unfoldable pub socket_pragmas : Table Pragma
socket_pragmas =
    ("socket", pragma 0x1e 0x21003)
    ∷ ("bind", pragma 0x24 0x18003)
    ∷ ("listen", pragma 0x2a 0x1002)
    ∷ ("accept", pragma 0x30 0x98003)
    ∷ ("connect", pragma 0x36 0x18003)
    ∷ ("sendto", pragma 0x3c 0x39218006)
    ∷ ("send", pragma 0x42 0x218004)
    ∷ ("recvfrom", pragma 0x48 0xA9218006)
    ∷ ("recv", pragma 0x4e 0x218004)
    ∷ ("shutdown", pragma 0x54 0x1002)
    ∷ ("setsockopt", pragma 0x5a 0x3821005)
    ∷ ("getsockopt", pragma 0x60 0x9821005)
    ∷ ("getsockname", pragma 0x66 0x98003)
    ∷ ("getpeername", pragma 0x6c 0x98003)
    ∷ ("IoctlSocket", pragma 0x72 0x81003)
    ∷ ("CloseSocket", pragma 0x78 0x001)
    ∷ ("WaitSelect", pragma 0x7e 0x1BA98006)
    ∷ ("SetSocketSignals", pragma 0x84 0x21003)
    ∷ ("getdtablesize", pragma 0x8a 0x0)
    ∷ ("ObtainSocket", pragma 0x90 0x321004)
    ∷ ("ReleaseSocket", pragma 0x96 0x1002)
    ∷ ("ReleaseCopyOfSocket", pragma 0x9c 0x1002)
    ∷ ("Errno", pragma 0xa2 0x0)
    ∷ ("SetErrnoPtr", pragma 0xa8 0x0802)
    ∷ ("Inet_NtoA", pragma 0xae 0x001)
    ∷ ("inet_addr", pragma 0xb4 0x801)
    ∷ ("Inet_LnaOf", pragma 0xba 0x001)
    ∷ ("Inet_NetOf", pragma 0xc0 0x001)
    ∷ ("Inet_MakeAddr", pragma 0xc6 0x1002)
    ∷ ("inet_network", pragma 0xcc 0x801)
    ∷ ("gethostbyname", pragma 0xd2 0x801)
    ∷ ("gethostbyaddr", pragma 0xd8 0x10803)
    ∷ ("getnetbyname", pragma 0xde 0x801)
    ∷ ("getnetbyaddr", pragma 0xe4 0x1002)
    ∷ ("getservbyname", pragma 0xea 0x9802)
    ∷ ("getservbyport", pragma 0xf0 0x8002)
    ∷ ("getprotobyname", pragma 0xf6 0x801)
    ∷ ("getprotobynumber", pragma 0xfc 0x001)
    ∷ ("vsyslog", pragma 0x102 0x98003)
    ∷ ("Dup2Socket", pragma 0x108 0x1002)
    ∷ ("sendmsg", pragma 0x10e 0x18003)
    ∷ ("recvmsg", pragma 0x114 0x18003)
    ∷ ("gethostname", pragma 0x11a 0x0802)
    ∷ ("gethostid", pragma 0x120 0x0)
    ∷ ("SocketBaseTagList", pragma 0x126 0x801)
    ∷ ("GetSocketEvents", pragma 0x12c 0x801)
    ∷ []
