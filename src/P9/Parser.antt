-- ===== src/P9/Parser.antt =====
-- The constructors of the requests, the macros READ, READVAL and READSTR of
-- devices/p9fs/trequests.cpp, and `ToTRequest` and `handleTMesg` of devices/ooows-p9fs.cpp.
use dc2021f_ooows_public.Base.{
  ℕ, zero, suc, ◌+◌, ◌-◌, ◌%◌, ◌^◌, Option, none, some, List, [], ◌∷◌, ltb, ◌==◌, if◌then◌else◌,
}
use dc2021f_ooows_public.Net.Guest.{bytes_at}
use dc2021f_ooows_public.Virtio.Registers.{number}
use dc2021f_ooows_public.P9.{
  TRequest, t_version, t_auth, t_flush, t_attach, t_walk, t_open, t_create, t_read, t_write,
  t_clunk, t_remove, t_stat, t_wstat, p9_tversion, p9_tauth, p9_tattach, p9_tflush, p9_twalk,
  p9_topen, p9_tcreate, p9_tread, p9_twrite, p9_tclunk, p9_tremove, p9_tstat, p9_twstat,
}

-- A constructor goes through `body` with two variables, how far it is and how much is left. `none`
-- is the exception that the macro READ throws.
pub record Cursor : Type 0 where
  pub offset : ℕ
  pub size : ℕ

abbrev pub Reader : Type 0 → Type 0
Reader A = Cursor → Option (A × Cursor)

abbrev pub pure : {A : Type 0} → A → Reader A
pure a c = some (a, c)

-- How far it is.
abbrev pub here : Reader ℕ
here c = some (c.offset, c)

module _ {A B : Type 0} where
  abbrev pub and_then : Option (A × Cursor) → (A → Reader B) → Option (B × Cursor)
  and_then none k = none
  and_then (some (a, c)) k = k a c

  infixl 5 ◌>>=◌
  abbrev pub ◌>>=◌ : Reader A → (A → Reader B) → Reader B
  r >>= k = λ c. and_then (r c) k

-- `body` is the memory from the message's body on. `behind` is what stands on the heap behind the array
-- of the string that ends at the given offset of the message, up to the next byte 0: READSTR takes it
-- for the rest of the string. It may be anything, and another thing for each string.
module _ (body : ℕ → ℕ) where
  unfoldable pub read_bytes : (l : ℕ) → Reader (List ℕ)
  read_bytes l c =
      if ltb c.size l
      then none
      else some (bytes_at body c.offset l, record { offset = c.offset + l; size = c.size - l })

  abbrev pub read_val : (l : ℕ) → Reader ℕ
  read_val l = do bytes ← read_bytes l; pure (number bytes)

-- A string made of an array without its end: the bytes before the first 0, or all of them and what
-- stands behind the array.
abbrev pub until_nul : List ℕ → List ℕ → List ℕ
until_nul [] rest = rest
until_nul (b ∷ bytes) rest = if b == 0 then [] else b ∷ until_nul bytes rest

module _ (behind : ℕ → List ℕ) (body : ℕ → ℕ) where
  abbrev pub read_str : Reader (List ℕ)
  read_str = do
    l ← read_val body 2
    bytes ← read_bytes body l
    offset ← here
    pure (until_nul bytes (behind offset))

  abbrev pub read_strs : (count : ℕ) → Reader (List (List ℕ))
  read_strs zero = pure []
  read_strs (suc count) = do s ← read_str; rest ← read_strs count; pure (s ∷ rest)

  abbrev pub new_t_version : Reader TRequest
  new_t_version = do msize ← read_val body 4; version ← read_str; pure (t_version msize version)

  abbrev pub new_t_auth : Reader TRequest
  new_t_auth = do
    afid ← read_val body 4
    uname ← read_str
    aname ← read_str
    pure (t_auth afid uname aname)

  abbrev pub new_t_flush : Reader TRequest
  new_t_flush = do oldtag ← read_val body 4; pure (t_flush oldtag)

  abbrev pub new_t_attach : Reader TRequest
  new_t_attach = do
    fid ← read_val body 4
    afid ← read_val body 4
    uname ← read_str
    aname ← read_str
    pure (t_attach fid afid uname aname)

  abbrev pub new_t_walk : Reader TRequest
  new_t_walk = do
    fid ← read_val body 4
    newfid ← read_val body 4
    nwname ← read_val body 2
    wnames ← read_strs nwname
    pure (t_walk fid newfid wnames)

  abbrev pub new_t_open : Reader TRequest
  new_t_open = do fid ← read_val body 4; mode ← read_val body 1; pure (t_open fid mode)

  abbrev pub new_t_create : Reader TRequest
  new_t_create = do
    fid ← read_val body 4
    name ← read_str
    perm ← read_val body 4
    mode ← read_val body 1
    pure (t_create fid name perm mode)

  abbrev pub new_t_read : Reader TRequest
  new_t_read = do
    fid ← read_val body 4
    offset ← read_val body 8
    count ← read_val body 4
    pure (t_read fid offset count)

  abbrev pub new_t_write : Reader TRequest
  new_t_write = do
    fid ← read_val body 4
    offset ← read_val body 8
    count ← read_val body 4
    dat ← read_bytes body count
    pure (t_write fid offset count dat)

  abbrev pub new_t_clunk : Reader TRequest
  new_t_clunk = do fid ← read_val body 4; pure (t_clunk fid)

  abbrev pub new_t_remove : Reader TRequest
  new_t_remove = do fid ← read_val body 4; pure (t_remove fid)

  abbrev pub new_t_stat : Reader TRequest
  new_t_stat = do fid ← read_val body 4; pure (t_stat fid)

  abbrev pub new_t_wstat : Reader TRequest
  new_t_wstat = do
    fid ← read_val body 4
    nstat ← read_val body 2
    dat ← read_bytes body nstat
    pure (t_wstat fid dat)

  -- `ToTRequest`: the constructor by the message's type; `NULL` for a type that there is not.
  abbrev pub found : Reader TRequest → Reader (Option TRequest)
  found r = do request ← r; pure (some request)

  unfoldable pub to_t_request : (kind : ℕ) → Reader (Option TRequest)
  to_t_request kind =
      if kind == p9_tversion
      then found new_t_version
      else if kind == p9_tauth
      then found new_t_auth
      else if kind == p9_tflush
      then found new_t_flush
      else if kind == p9_tattach
      then found new_t_attach
      else if kind == p9_twalk
      then found new_t_walk
      else if kind == p9_topen
      then found new_t_open
      else if kind == p9_tcreate
      then found new_t_create
      else if kind == p9_tread
      then found new_t_read
      else if kind == p9_twrite
      then found new_t_write
      else if kind == p9_tclunk
      then found new_t_clunk
      else if kind == p9_tremove
      then found new_t_remove
      else if kind == p9_tstat
      then found new_t_stat
      else if kind == p9_twstat
      then found new_t_wstat
      else pure none

-- `handleTMesg` as it is built by default, for a message in the guest's memory, `guest` from the
-- buffer's start on. The message's size is read from there four times, for the test, for the array
-- `raw`, for the copy and for the constructor, while another CPU may change it; `garbage` is what
-- `raw` holds before. `none` is an exception, or a copy that leaves the array.
pub record Sizes : Type 0 where
  pub tested : ℕ
  pub allocated : ℕ
  pub copied : ℕ
  pub passed : ℕ

pub data Handled : Type 0 where
  refused : Handled
  handled : Option TRequest → Handled

abbrev pub raw_byte : (guest garbage : ℕ → ℕ) → (copied : ℕ) → ℕ → ℕ
raw_byte guest garbage copied i = if ltb i (copied - 4) then guest (4 + i) else garbage i

abbrev pub queued : Option (Option TRequest × Cursor) → Option Handled
queued none = none
queued (some (request, c)) = some (handled request)

unfoldable pub handle_t_mesg :
    (behind : ℕ → List ℕ) (guest garbage : ℕ → ℕ) → Sizes → (len : ℕ) → Option Handled
handle_t_mesg behind guest garbage s len =
    let raw = raw_byte guest garbage s.copied in
    if ltb len 7
    then some refused
    else if ltb s.tested 7
    then some refused
    else if ltb s.allocated ((s.copied + 2 ^ 32 - 4) % 2 ^ 32)
    then none
    else queued
        (to_t_request behind (λ i. raw (3 + i)) (raw 0) (record { offset = 0; size = s.passed }))
