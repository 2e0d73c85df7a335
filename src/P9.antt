-- ===== src/P9.antt =====
-- The 9P file share: the guest kernel's messages, boot/kernel/p9.c, and the requests that the device
-- makes of them, devices/ooows-p9fs.cpp and devices/p9fs/trequests.cpp.
pub mod Parser
pub mod Kernel
pub mod Reading
pub mod Layout
pub mod Sent
pub mod RoundTrip
pub mod Bounds
pub mod Core
pub mod Execute
pub mod Counted
pub mod Walks
pub mod Share
pub mod Requests
mod Tests
use dc2021f_ooows_public.Base.{ℕ, List}

-- The requests, with the members that their constructors read.
pub data TRequest : Type 0 where
  t_version : (msize : ℕ) (version : List ℕ) → TRequest
  t_auth : (afid : ℕ) (uname aname : List ℕ) → TRequest
  t_flush : (oldtag : ℕ) → TRequest
  t_attach : (fid afid : ℕ) (uname aname : List ℕ) → TRequest
  t_walk : (fid newfid : ℕ) (wnames : List (List ℕ)) → TRequest
  t_open : (fid mode : ℕ) → TRequest
  t_create : (fid : ℕ) (name : List ℕ) (perm mode : ℕ) → TRequest
  t_read : (fid offset count : ℕ) → TRequest
  t_write : (fid offset count : ℕ) (dat : List ℕ) → TRequest
  t_clunk : (fid : ℕ) → TRequest
  t_remove : (fid : ℕ) → TRequest
  t_stat : (fid : ℕ) → TRequest
  t_wstat : (fid : ℕ) (dat : List ℕ) → TRequest

abbrev pub p9_tversion : ℕ
p9_tversion = 100

abbrev pub p9_tauth : ℕ
p9_tauth = 102

abbrev pub p9_tattach : ℕ
p9_tattach = 104

abbrev pub p9_tflush : ℕ
p9_tflush = 108

abbrev pub p9_twalk : ℕ
p9_twalk = 110

abbrev pub p9_topen : ℕ
p9_topen = 112

abbrev pub p9_tcreate : ℕ
p9_tcreate = 114

abbrev pub p9_tread : ℕ
p9_tread = 116

abbrev pub p9_twrite : ℕ
p9_twrite = 118

abbrev pub p9_tclunk : ℕ
p9_tclunk = 120

abbrev pub p9_tremove : ℕ
p9_tremove = 122

abbrev pub p9_tstat : ℕ
p9_tstat = 124

abbrev pub p9_twstat : ℕ
p9_twstat = 126
