-- ===== src/System/Kernel.antt =====
-- The system calls of cluster-api/*.c as data, and the kernel that answers them: any function of the
-- calls made so far. What the kernel does is a parameter of every program below.
use computing_cluster.Base.{ℕ, Bool, List}

pub data Errno : Type 0 where
  eagain ewouldblock econnreset econnrefused epipe other : Errno

pub data Answer (A : Type 0) : Type 0 where
  done : A → Answer A
  failed : Errno → Answer A

-- What a descriptor is watched for: EPOLLIN, EPOLLOUT, EPOLLHUP, EPOLLRDHUP.
pub record Interest : Type 0 where
  pub epollin : Bool
  pub epollout : Bool
  pub epollhup : Bool
  pub epollrdhup : Bool

-- One entry of the array that epoll_wait() fills.
pub record EpollEvent : Type 0 where
  pub fd : ℕ
  pub epollin : Bool
  pub epollout : Bool
  pub epollhup : Bool
  pub epollerr : Bool

pub data SocketKind : Type 0 where
  datagram_nonblocking stream stream_nonblocking : SocketKind

-- The value given with so_linger is l_linger; l_onoff is 1.
pub data SockOpt : Type 0 where
  so_broadcast so_reuseaddr so_keepalive so_linger : SockOpt
  tcp_keepidle tcp_keepintvl tcp_keepcnt tcp_user_timeout : SockOpt
  tcp_linger2 tcp_nodelay tcp_cork : SockOpt

pub data Address : Type 0 where
  broadcast any : (port : ℕ) → Address
  -- The address of another host, which only travels between calls.
  peer : (number : ℕ) → Address

pub data Call : Type 0 where
  socket : SocketKind → Call
  setsockopt : (fd : ℕ) → SockOpt → (value : ℕ) → Call
  bind : (fd : ℕ) → Address → Call
  listen : (fd backlog : ℕ) → Call
  accept4 : (fd : ℕ) → Call
  shutdown : (fd : ℕ) → Call
  close : (fd : ℕ) → Call
  recv : (fd bytes_to_read : ℕ) → Call
  send : (fd : ℕ) → (bytes : List ℕ) → Call
  sendto : (fd : ℕ) → (bytes : List ℕ) → Address → Call
  epoll_create1 : Call
  epoll_add : (fd : ℕ) → Interest → Call
  epoll_mod : (fd : ℕ) → Interest → Call
  epoll_del : (fd : ℕ) → Call
  epoll_wait : (max_events : ℕ) → Call
  malloc : (size : ℕ) → Call
  pthread_create : Call
  pthread_join : Call
  -- The calls that only the client makes. thread_create() starts the worker of an entry.
  connect : (fd : ℕ) → Address → Call
  recvfrom : (fd bytes_to_read : ℕ) → Call
  getaddrinfo : Call
  getnameinfo : (number : ℕ) → Call
  nanosleep : (seconds : ℕ) → Call
  fcntl_setfd : (fd : ℕ) → Call
  timerfd_create : Call
  timerfd_settime : (fd interval value : ℕ) → Call
  read_timer : (fd : ℕ) → Call
  eventfd : Call
  read_event : (fd : ℕ) → Call
  write_event : (fd : ℕ) → Call
  pthread_attr_init : Call
  pthread_attr_setdetachstate : Call
  pthread_attr_setaffinity : (cpu : ℕ) → Call
  thread_create : (entry : ℕ) → Call
  get_nprocs : Call
  fopen : Call
  fscanf : Call
  fclose : Call

-- The calls made so far, the latest first.
abbrev pub Trace : Type 0
Trace = List Call

pub record Kernel : Type 0 where
  -- The number that a call returns; `failed` for -1, or for NULL, with errno.
  pub status : Trace → Call → Answer ℕ
  -- The bytes that recv() stores, as many as it returns, those of a new block of memory, and the
  -- numbers of the addresses that getaddrinfo() finds.
  pub input : Trace → Call → Answer (List ℕ)
  -- The number of the address that recvfrom() stores.
  pub sender : Trace → ℕ
  -- The events that epoll_wait() stores.
  pub events : Trace → Call → Answer (List EpollEvent)
