-- ===== src/Tcp/InitSocketLib.antt =====
-- TcpSocketDll/CInitSocketLib.cpp: a static object that starts Windows sockets before `main` and stops
-- them behind it, over a parameter for the library: the world it changes is `W`.
use school_system.Base.{ℕ, ◌+◌, ◌*◌, Bool}

-- `WSAStartup`, which says whether it failed, and `WSACleanup`
pub record WinSock (W : Type 0) : Type 0 where
  pub startup : ℕ → W → Bool × W
  pub cleanup : W → W

-- `MAKEWORD(2, 2)`
abbrev version : ℕ
version = 2 + 256 * 2

-- `CInitSocketLib::CInitSocketLib`: what `WSAStartup` answers is not kept.
abbrev new_init_socket_lib : {W : Type 0} → WinSock W → W → W
new_init_socket_lib lib w = (lib.startup version w).1

-- `CInitSocketLib::~CInitSocketLib`
abbrev drop_init_socket_lib : {W : Type 0} → WinSock W → W → W
drop_init_socket_lib lib w = lib.cleanup w
